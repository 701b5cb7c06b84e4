-- ===== src/Forge/Github/Url/RoundTrip.antt =====
-- internal/forge/forges/github.go: the URLs that `ParseURL` takes apart.
use codewalker.Prelude.{
  ℕ, suc, Bytes, bytes, false, [], ◌∷◌, ◌++◌, some, ◌≡◌, refl, ap, sym, ◌∙◌, arith, eqb, ◌==◌, All,
  ◌≢◌,
}
use codewalker.Prelude.Int.{ℤ}
use codewalker.Prelude.Strings.{split_n, trim_right_byte, trim_prefix, itoa}
use codewalker.Prelude.Strings.Split.{push}
use codewalker.Prelude.Strings.Decimal.RoundTrip.{itoa_no_slash, FitsInt, atoi-itoa}
use codewalker.Forge.{ForgeContext, ForgeContextKind}
use codewalker.Forge.Github.Url.{parse_url, parse_parts, parse_kind, parse_pull, context_for}

-- A byte that is no slash.
abbrev pub IsPlain : ℕ → Type 0
IsPlain c = eqb c b'/' ≡ false

split_n-plain :
    (c : ℕ) (s : Bytes) (n : ℕ)
    → IsPlain c
    → split_n (c ∷ s) b'/' (suc (suc n)) ≡ push c (split_n s b'/' (suc (suc n)))
unfolding split_n
split_n-plain c s n h = rw (h, split_n) refl

split_n-part :
    (p rest : Bytes) (n : ℕ)
    → All IsPlain p
    → split_n (p ++ b'/' ∷ rest) b'/' (suc (suc n)) ≡ p ∷ split_n rest b'/' (suc n)
split_n-part [] rest n h = unfold split_n in refl
split_n-part (c ∷ p) rest n (hc, h) =
    split_n-plain c (p ++ b'/' ∷ rest) n hc ∙ ap (push c) (split_n-part p rest n h)

split_n-last : (p : Bytes) (n : ℕ) → All IsPlain p → split_n p b'/' (suc (suc n)) ≡ p ∷ []
split_n-last [] n h = unfold split_n in refl
split_n-last (c ∷ p) n (hc, h) = split_n-plain c p n hc ∙ ap (push c) (split_n-last p n h)

trim_right_byte-plain :
    (d : ℕ) (t : Bytes) → IsPlain d → All IsPlain t → trim_right_byte (d ∷ t) b'/' ≡ d ∷ t
unfolding trim_right_byte
trim_right_byte-plain d [] hd h = ground arith
trim_right_byte-plain d (c ∷ t) hd (hc, h) = rw (trim_right_byte-plain c t hc h) refl

-- A text that does not end with a slash.
abbrev Ends : Bytes → Type 0
Ends s = (s ≢ []) × (trim_right_byte s b'/' ≡ s)

cons-Ends : (c : ℕ) (s : Bytes) → Ends s → Ends (c ∷ s)
unfolding trim_right_byte
cons-Ends c [] (n, h) = absurd (n refl)
cons-Ends c (e ∷ s) (n, h) = (λ q. cc, rw h refl)

append-Ends : (s t : Bytes) → Ends t → Ends (s ++ t)
append-Ends [] t h = h
append-Ends (c ∷ s) t h = cons-Ends c (s ++ t) (append-Ends s t h)

parse_kind-pull :
    (fc : ForgeContext) (n : ℤ)
    → FitsInt n
    → parse_kind fc (bytes "pull") (itoa n)
      ≡ some (record fc { kind = ForgeContextKind.pr; pr_number = n })
unfolding parse_kind parse_pull ◌==◌
parse_kind-pull fc n h = rw (atoi-itoa n h) refl

parse_url-plain :
    (owner repo kind : Bytes) (d : ℕ) (t : Bytes)
    → All IsPlain owner
    → All IsPlain repo
    → All IsPlain kind
    → All IsPlain (d ∷ t)
    → let path = owner ++ (b'/' ∷ (repo ++ (b'/' ∷ (kind ++ (b'/' ∷ (d ∷ t)))))) in
      parse_url (bytes "https://github.com/" ++ path)
      ≡ parse_kind (context_for (bytes "https://github.com/" ++ path) owner repo) kind (d ∷ t)
unfolding parse_url trim_prefix
parse_url-plain owner repo kind d t ho hr hk hd =
    let kind_on = kind ++ (b'/' ∷ (d ∷ t)) in
    let repo_on = repo ++ (b'/' ∷ kind_on) in
    let path = owner ++ (b'/' ∷ repo_on) in
    let url = bytes "https://github.com/" ++ path in
    let ends : Ends (bytes "github.com/" ++ path) = append-Ends (bytes "github.com/") path (
      append-Ends owner (b'/' ∷ repo_on) (
        cons-Ends b'/' repo_on (
          append-Ends repo (b'/' ∷ kind_on) (
            cons-Ends b'/' kind_on (
              append-Ends kind (b'/' ∷ d ∷ t)
                (cons-Ends b'/' (d ∷ t) (λ q. cc, trim_right_byte-plain d t hd.0 hd.1))))))) in
    ap (λ s. parse_parts url (split_n s b'/' 6)) ends.1
    ∙ ap (parse_parts url) (
        split_n-part (bytes "github.com") path 4
          (refl, (refl, (refl, (refl, (refl, (refl, (refl, (refl, (refl, (refl, tt))))))))))
        ∙ ap (◌∷◌ (bytes "github.com")) (
            split_n-part owner repo_on 3 ho
            ∙ ap (◌∷◌ owner) (
                split_n-part repo kind_on 2 hr
                ∙ ap (◌∷◌ repo)
                    (split_n-part kind (d ∷ t) 1 hk ∙ ap (◌∷◌ kind) (split_n-last (d ∷ t) 0 hd)))))
    ∙ unfold parse_parts ◌==◌ in refl

-- The URL of a pull request is read as the pull request that it names.
pub parse_url-pull :
    (owner repo : Bytes) (n : ℤ)
    → All IsPlain owner
    → All IsPlain repo
    → FitsInt n
    → let url =
        bytes "https://github.com/"
        ++ (owner ++ (b'/' ∷ (repo ++ (b'/' ∷ (bytes "pull" ++ (b'/' ∷ itoa n)))))) in
      parse_url url
      ≡ some (record (context_for url owner repo) { kind = ForgeContextKind.pr; pr_number = n })
parse_url-pull owner repo n ho hr h =
    let (d, t, e, hd, ht) = itoa_no_slash n in
    let url : Bytes → Bytes = λ ref.
      bytes "https://github.com/"
      ++ (owner ++ (b'/' ∷ (repo ++ (b'/' ∷ (bytes "pull" ++ (b'/' ∷ ref)))))) in
    ap (λ ref. parse_url (url ref)) e
    ∙ parse_url-plain owner repo (bytes "pull") d t ho hr (refl, (refl, (refl, (refl, tt))))
        (hd, ht)
    ∙ ap (λ ref. parse_kind (context_for (url ref) owner repo) (bytes "pull") ref) (sym e)
    ∙ parse_kind-pull (context_for (url (itoa n)) owner repo) n h

-- The URL of a commit is read as the commit that it names, by a name of any bytes but slashes.
pub parse_url-commit :
    (owner repo : Bytes) (d : ℕ) (t : Bytes)
    → All IsPlain owner
    → All IsPlain repo
    → All IsPlain (d ∷ t)
    → let url =
        bytes "https://github.com/"
        ++ (owner ++ (b'/' ∷ (repo ++ (b'/' ∷ (bytes "commit" ++ (b'/' ∷ (d ∷ t))))))) in
      parse_url url
      ≡ some
          (record (context_for url owner repo) { kind = ForgeContextKind.commit; head_ref = d ∷ t })
parse_url-commit owner repo d t ho hr hd =
    parse_url-plain owner repo (bytes "commit") d t ho hr
      (refl, (refl, (refl, (refl, (refl, (refl, tt)))))) hd
    ∙ unfold parse_kind ◌==◌ in refl
