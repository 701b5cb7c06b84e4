-- ===== src/Server/Navigate/Health.antt =====
-- `Navigate` keeps the registry in order: the walkers of all sessions stand on their graphs.
use mathlib.Core.Path.{subst}
use mathlib.Core.Option.{some-injective}
use codewalker.Prelude.{
  sym, ◌==◌, if◌then◌else◌, [], ◌∙◌, Bytes, Bool, true, false, Option, none, some, Result, ok, err,
  ◌≡◌, refl, sym, ◌==◌, if◌then◌else◌, Bool-cases, Option-cases, inl, inr, ℕ, List,
}
use codewalker.Proto.{NarrateEvent, StepEdge}
use codewalker.Graph.{Step}
use codewalker.Graph.Walker.{Outcome, make}
use codewalker.Graph.Walker.Moves.{IsOnGraph, make-IsOnGraph}
use codewalker.Session.{Session, CachedStep, cache_narration, touch}
use codewalker.Session.Store.{Store, StoreError, set, get}
use codewalker.Session.Store.Laws.{
  find-set, find-get, find-get_all, touched, IsConsistent, find, set-IsConsistent, get-IsConsistent,
}
use codewalker.Server.Stream.{Stream}
use codewalker.Server.Navigate.{
  Provider, NavigateRequest, Arrival, Drained, finished, failed, waiting, drain, start_drain,
  settle, live, narrate_code, narrate_step, after_move, with_session, navigate, destination_move,
  Destination,
}

-- The registry is consistent, and each walker stands on its graph.
pub record IsHealthy (st : Store) : Type 0 where
  pub consistent : IsConsistent st
  pub on_graph : (k : Bytes) (s : Session) → find st k ≡ some s → IsOnGraph s.walker

-- A property of a session that a map update may have found.
pick :
    (P : Session → Type 0) (b : Bool) (x y : Option Session) (t : Session)
    → ((u : Session) → x ≡ some u → P u)
    → ((u : Session) → y ≡ some u → P u)
    → (if b then x else y) ≡ some t
    → P t
pick P true x y t hx hy e = hx t e
pick P false x y t hx hy e = hy t e

abbrev OnGraph : Session → Type 0
OnGraph s = IsOnGraph s.walker

pub set-IsHealthy :
    (st : Store) (s : Session) → IsOnGraph s.walker → IsHealthy st → IsHealthy (set st s)
set-IsHealthy st s w h = record {
  consistent = set-IsConsistent st s h.consistent;
  on_graph = λ k t e.
      pick OnGraph (s.id == k) (some s) (find st k) t
        (λ u q. subst OnGraph (some-injective s u q) w) (h.on_graph k) (sym (find-set st s k) ∙ e);
}

touched-OnGraph :
    (now : ℕ) (o : Option Session) (t : Session)
    → ((u : Session) → o ≡ some u → OnGraph u)
    → touched now o ≡ some t
    → OnGraph t
touched-OnGraph now none t h e = cc
touched-OnGraph now (some s) t h e =
    subst OnGraph (some-injective (touch now s) t e) (unfold touch in h s refl)

pub get-IsHealthy : (now : ℕ) (st : Store) (id : Bytes) → IsHealthy st → IsHealthy (get now st id).0
get-IsHealthy now st id h = record {
  consistent = get-IsConsistent now st id h.consistent;
  on_graph = λ k t e.
      pick OnGraph (id == k) (touched now (find st id)) (find st k) t
        (λ u. touched-OnGraph now (find st id) u (h.on_graph id)) (h.on_graph k)
        (sym (find-get_all now st id k) ∙ e);
}

settle-IsHealthy :
    (st : Store) (sess : Session) (s : Step) (edges : List StepEdge) (crumb : List Bytes)
    (d : Drained)
    → IsHealthy st
    → OnGraph sess
    → IsHealthy (settle st sess s edges crumb d).0
settle-IsHealthy st sess s edges crumb (failed c stream) h w = unfold settle in h
settle-IsHealthy st sess s edges crumb (waiting d) h w = unfold settle in h
settle-IsHealthy st sess s edges crumb (finished d) h w =
    unfold settle in
    set-IsHealthy st
      (cache_narration sess s.id
        (record { narration_tokens = d.collected_tokens; summary = d.summary_result }))
      (unfold cache_narration in w) h

live-IsHealthy :
    (st : Store) (sess : Session) (stream : Stream NarrateEvent) (s : Step) (edges : List StepEdge)
    (crumb : List Bytes) (o : Option (List Arrival))
    → IsHealthy st
    → OnGraph sess
    → IsHealthy (live st sess stream s edges crumb o).0
live-IsHealthy st sess stream s edges crumb none h w = unfold live in h
live-IsHealthy st sess stream s edges crumb (some arrivals) h w =
    unfold live in
    settle-IsHealthy st sess s edges crumb (drain (start_drain stream s) arrivals) h w

narrate_code-IsHealthy :
    (p : Provider) (st : Store) (sess : Session) (stream : Stream NarrateEvent) (s : Step)
    (edges : List StepEdge) (crumb : List Bytes) (code : Option Bytes) (c : Option CachedStep)
    → IsHealthy st
    → OnGraph sess
    → IsHealthy (narrate_code p st sess stream s edges crumb code c).0
narrate_code-IsHealthy p st sess stream s edges crumb none c h w = unfold narrate_code in h
narrate_code-IsHealthy p st sess stream s edges crumb (some code) (some c) h w =
    unfold narrate_code in h
narrate_code-IsHealthy p st sess stream s edges crumb (some code) none h w =
    unfold narrate_code in live-IsHealthy st sess stream s edges crumb _ h w

move-IsHealthy :
    (p : Provider) (st : Store) (sess : Session) (stream : Stream NarrateEvent) (o : Outcome)
    → IsHealthy st
    → IsOnGraph o.0
    → IsHealthy (after_move p st sess stream o).0
move-IsHealthy p st sess stream (w, err e) h g =
    unfold after_move in set-IsHealthy st (record sess { walker = w }) g h
move-IsHealthy p st sess stream (w, ok s) h g =
    unfold after_move narrate_step in
    narrate_code-IsHealthy p _ (record sess { walker = w }) stream s _ _ _ _
      (set-IsHealthy st (record sess { walker = w }) g h) g

session-IsHealthy :
    (p : Provider) (stream : Stream NarrateEvent) (d : Destination)
    (r : Store × Result StoreError Session)
    → IsHealthy r.0
    → ((s : Session) → r.1 ≡ ok s → OnGraph s)
    → IsHealthy (with_session p stream d r).0
session-IsHealthy p stream d (st, err e) h g = unfold with_session in h
session-IsHealthy p stream d (st, ok sess) h g =
    unfold with_session in
    elim (Option-cases (destination_move d)) [
      | inl q ↦ rw q h
      | inr (m, q) ↦ rw q (
          move-IsHealthy p st sess stream (make sess.walker m) h
            (make-IsOnGraph sess.walker m (g sess refl)))
    ]

-- `Navigate` keeps a healthy registry healthy, whatever the request, the model and the stream do.
pub navigate-IsHealthy :
    (p : Provider) (now : ℕ) (st : Store) (req : NavigateRequest) (stream : Stream NarrateEvent)
    → IsHealthy st
    → IsHealthy (navigate p now st req stream).0
navigate-IsHealthy p now st req stream h = elim (Bool-cases (req.session_id == [])) [
  | inl e ↦ unfold navigate in rw e h
  | inr e ↦
      let after = get-IsHealthy now st req.session_id h in
      let held =
        session-IsHealthy p stream req.destination (get now st req.session_id) after
          (λ s q. after.on_graph req.session_id s (find-get now st req.session_id q).0) in
      unfold navigate in rw e held
]
