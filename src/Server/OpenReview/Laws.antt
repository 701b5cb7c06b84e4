-- ===== src/Server/OpenReview/Laws.antt =====
-- server/open_review_session.go: what an answer of `OpenReviewSession` means for the registry.
use codewalker.Prelude.{
  ℕ, zero, suc, Bytes, List, [], ◌∷◌, ◌++◌, Option, none, some, bytes, ap, Result, ok, err, ◌≡◌,
  refl, ◌∙◌, ◌⊎◌, inl, inr, ◌==◌, eq_refl, Bool-cases,
}
use codewalker.Session.Store.{Store}
use codewalker.Session.Store.Laws.{find, find-set}
use codewalker.Server.Stream.{Code, Stream}
use codewalker.Server.Forges.{ForgeHandler}
use codewalker.Server.OpenReview.{
  SessionEvent, OpenReviewSessionRequest, Prepared, Opened, review_session, ready_event, emit,
  finish, open_review, open_review_session, invalid_argument, extract_url_host, file_lines_of,
  or_invalid, prepare, progress,
}
use codewalker.Server.Stream.{then_send}
use codewalker.Server.Forges.{resolve_handler, to_status}
use codewalker.Forge.Host.{normalize_host}
use codewalker.Forge.Orderers.{resolve_orderer, order}
use codewalker.Server.OpenReview.Gives.{Gives, then_send-Gives, then_with-Gives}
use codewalker.Forge.{ForgeContext, ReviewPayload, ForgeError}
use codewalker.Forge.Orderers.{Orderer}
use mathlib.Core.Path.{subst}

emit_cases :
    (stream : Stream SessionEvent) (e : SessionEvent)
    → (emit stream e).1 ≡ ok tt
    → (emit stream e).0.sent ≡ stream.sent ++ e ∷ []
emit_cases stream e = go stream.room stream.life stream.sent
  where
    go :
        (n m : ℕ) (l : List SessionEvent)
        → (emit (record { sent = l; room = n; life = m }) e).1 ≡ ok tt
        → (emit (record { sent = l; room = n; life = m }) e).0.sent ≡ l ++ e ∷ []
    go n zero l h = unfold emit in cc
    go zero (suc m) l h = unfold emit in cc
    go (suc n) (suc m) l h = unfold emit in refl

-- The session is of what the forge gave for the URL: the handler of its host read the URL and fetched
-- the review; its files, in the order that was asked for, are those of the session, with the lines that
-- the forge gave for them.
pub record IsFetched (url_host : Bytes → Option Bytes) (handlers : List ForgeHandler)
    (req : OpenReviewSessionRequest) (p : Prepared) : Type 0 where
  pub host : Bytes
  pub handler : ForgeHandler
  pub read : ForgeContext
  pub payload : ReviewPayload
  pub orderer : Orderer
  pub of_host : extract_url_host url_host req.url ≡ some host
  pub handles : resolve_handler handlers (normalize_host host) ≡ some handler
  pub reads : handler.parse_url req.url ≡ some read
  pub fetches : handler.fetch_review read req.forge_token ≡ ok payload
  pub orders : resolve_orderer req.file_ordering ≡ some orderer
  pub context : p.context ≡ payload.context
  pub files : p.files ≡ order orderer payload.files
  pub file_lines :
      p.file_lines
      ≡ file_lines_of handler payload.context req.forge_token (order orderer payload.files)

or_invalid-ok {ℓ} : {A : Type ℓ} (o : Option A) {a : A} → or_invalid o ≡ ok a → o ≡ some a
unfolding or_invalid
or_invalid-ok none h = cc
or_invalid-ok (some b) h = cc

to_status-ok {ℓ} : {A : Type ℓ} (r : Result ForgeError A) {a : A} → to_status r ≡ ok a → r ≡ ok a
unfolding to_status
to_status-ok (ok b) h = cc
to_status-ok (err e) h = cc

prepared_or : Prepared → Result Code Prepared → Prepared
prepared_or d (ok p) = p
prepared_or d (err c) = d

module _ (url_host : Bytes → Option Bytes) (handlers : List ForgeHandler)
    (req : OpenReviewSessionRequest) where
  abbrev Fetched : Prepared → Type 0
  Fetched p = IsFetched url_host handlers req p

  -- What the progress of step 4 leads to.
  created-Gives :
      (p : Prepared)
      → Fetched p
      → (stream : Stream SessionEvent)
      → Gives Fetched (
          then_send (emit stream (progress (bytes "building step graph") 50)) (λ stream.
            then_send
              (emit stream (progress (bytes "creating session") 90))
              (λ stream. (stream, ok p))))
  unfolding prepared_or
  created-Gives p h stream =
      then_send-Gives Fetched (emit stream (progress (bytes "building step graph") 50)) _ (λ s.
        then_send-Gives Fetched (emit s (progress (bytes "creating session") 90)) _
          (λ s a e. subst Fetched (ap (prepared_or p) e) h))

  prepare-Gives :
      (host : Bytes) (h : ForgeHandler) (fc : ForgeContext) (stream : Stream SessionEvent)
      → extract_url_host url_host req.url ≡ some host
      → resolve_handler handlers (normalize_host host) ≡ some h
      → h.parse_url req.url ≡ some fc
      → Gives Fetched (prepare req h fc stream)
  unfolding prepare
  prepare-Gives host h fc stream on_host handled parsed =
      then_send-Gives Fetched (emit stream (progress (bytes "fetching diff") 20)) _ (λ s.
        then_with-Gives Fetched s (to_status (h.fetch_review fc req.forge_token)) _
          (λ payload fetched.
            then_with-Gives Fetched s (or_invalid (resolve_orderer req.file_ordering)) _
              (λ orderer ordered.
                created-Gives _
                  (record {
                    host = host;
                    handler = h;
                    read = fc;
                    payload = payload;
                    orderer = orderer;
                    of_host = on_host;
                    handles = handled;
                    reads = parsed;
                    fetches = to_status-ok (h.fetch_review fc req.forge_token) fetched;
                    orders = or_invalid-ok (resolve_orderer req.file_ordering) ordered;
                    context = refl;
                    files = refl;
                    file_lines = refl;
                  })
                  s)))

  open_review-Gives :
      (stream : Stream SessionEvent) → Gives Fetched (open_review url_host handlers req stream)
  unfolding open_review
  open_review-Gives stream =
      then_send-Gives Fetched (emit stream (progress (bytes "parsing URL") 5)) _ (λ s.
        then_with-Gives Fetched s (or_invalid (extract_url_host url_host req.url)) _
          (λ host on_host.
            then_with-Gives Fetched s (or_invalid (resolve_handler handlers (normalize_host host)))
              _
              (λ h handled.
                then_with-Gives Fetched s (or_invalid (h.parse_url req.url)) _ (λ fc parsed.
                  prepare-Gives host h fc s
                    (or_invalid-ok (extract_url_host url_host req.url) on_host)
                    (or_invalid-ok (resolve_handler handlers (normalize_host host)) handled)
                    (or_invalid-ok (h.parse_url req.url) parsed)))))

  -- How a call ended: it left the registry as it was and failed, or it registered the session of
  -- what was fetched; it then succeeded only if the last event sent was the one that describes it.
  abbrev pub IsSettled : ℕ → Bytes → Store → Opened → Type 0
  IsSettled now id st r =
      ((r.0 ≡ st) × ((c : Code) × (r.1.1 ≡ err c)))
      ⊎ ((p : Prepared) × Fetched p
          × (find r.0 id ≡ some (review_session now id req p))
          × (r.1.1 ≡ ok tt
              → (before : List SessionEvent) × (r.1.0.sent ≡ before ++ ready_event id req p ∷ [])))

  finish_cases :
      (now : ℕ) (id : Bytes) (st : Store) (x : Stream SessionEvent × Result Code Prepared)
      → Gives Fetched x
      → IsSettled now id st (finish now id st req x)
  unfolding finish
  finish_cases now id st (stream, err c) g = inl (refl, (c, refl))
  finish_cases now id st (stream, ok p) g = inr (
    p,
    g p refl,
    find-set st (review_session now id req p) id ∙ rw (eq_refl id) refl,
    λ h. (stream.sent, emit_cases stream (ready_event id req p) h),
  )

-- `OpenReviewSession` either fails and leaves the registry as it was, or registers under the new ID
-- the session of what was fetched: the files that the handler of the URL's host gave for the URL, in
-- the order of the orderer that the request names, with the lines that the forge gave for them. If it
-- succeeds, the last event that it sent describes that session.
pub open_review_session_cases :
    (url_host : Bytes → Option Bytes) (handlers : List ForgeHandler) (now : ℕ) (id : Bytes)
    (st : Store) (req : OpenReviewSessionRequest) (stream : Stream SessionEvent)
    → IsSettled url_host handlers req now id st
        (open_review_session url_host handlers now id st req stream)
unfolding open_review_session
open_review_session_cases url_host handlers now id st req stream =
    elim (Bool-cases (req.url == [])) [
      | inl e ↦ rw e (inl (refl, (invalid_argument, refl)))
      | inr e ↦ rw e (
          finish_cases url_host handlers req now id st (open_review url_host handlers req stream)
            (open_review-Gives url_host handlers req stream))
    ]
