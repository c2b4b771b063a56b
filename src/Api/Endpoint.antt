-- ===== src/Api/Endpoint.antt =====
-- The URL that the client of src/gruezi/status.rs asks, for the texts that a node may be.
use gruezi.Base.{
  ℕ, zero, suc, arith, ◌==◌, ◌≡◌, ◌≢◌, refl, sym, ap, ◌∙◌, subst, true, false, [], ◌∷◌, ◌++◌,
  reverse, Bool-cases, ◌⊎◌, inl, inr,
}
use mathlib.Core.List.{reverse-append, reverse-reverse}
use gruezi.Text.{Text, codes, starts_with}
use gruezi.Api.{ends_with, has_scheme, trim_end_slashes, skip_slashes, normalize_status_endpoint}

-- One of the two schemes.
abbrev pub IsScheme : Text → Type 0
IsScheme s = (s ≡ codes "http://") ⊎ (s ≡ codes "https://")

abbrev pub HasScheme : Text → Type 0
HasScheme node = (scheme : Text) × (rest : Text) × IsScheme scheme × (node ≡ scheme ++ rest)

abbrev pub slashes : ℕ → Text
slashes zero = []
slashes (suc n) = b'/' ∷ slashes n

-- What is to be asked for a node: the URL itself where it has a scheme and the path; else its
-- text without the slashes at the end, and the path; or, without a scheme, `http` before all.
pub data Asks (node : Text) : Text → Type 0 where
  complete : (front : Text) → HasScheme node → node ≡ front ++ codes "/status" → Asks node node
  based :
      (base : Text) (n : ℕ)
      → HasScheme node
      → ((front : Text) → node ≢ front ++ codes "/status")
      → node ≡ base ++ slashes n
      → ((front : Text) → base ≢ front ++ codes "/")
      → Asks node (base ++ codes "/status")
  bare : (HasScheme node → ⊥) → Asks node (codes "http://" ++ (node ++ codes "/status"))

starts_with-++ : (s t : Text) → starts_with (s ++ t) s ≡ true
unfolding starts_with
starts_with-++ [] [] = refl
starts_with-++ [] (y ∷ ys) = refl
starts_with-++ (x ∷ xs) t = ground (arith, starts_with-++ xs t)

starts_with_inv : (s t : Text) → starts_with s t ≡ true → (rest : Text) × (s ≡ t ++ rest)
unfolding starts_with
starts_with_inv s [] h = (s, refl)
starts_with_inv [] (y ∷ ys) h = absurd (cc h)
starts_with_inv (x ∷ xs) (y ∷ ys) h =
    let same : x ≡ y = ground arith in
    let (rest, e) = starts_with_inv xs ys (ground arith) in (rest, cc (same, e))

pub ends_with-++ : (s t : Text) → ends_with (s ++ t) t ≡ true
unfolding ends_with
ends_with-++ s t =
    subst (λ x. starts_with x (reverse t) ≡ true) (sym (reverse-append s t))
      (starts_with-++ (reverse t) (reverse s))

ends_with_inv : (s t : Text) → ends_with s t ≡ true → (front : Text) × (s ≡ front ++ t)
unfolding ends_with
ends_with_inv s t h =
    let (rest, e) = starts_with_inv (reverse s) (reverse t) h in
    (
      reverse rest,
      sym (reverse-reverse s)
          ∙ ap reverse e
          ∙ reverse-append (reverse t) rest
          ∙ ap (λ x. reverse rest ++ x) (reverse-reverse t),
    )

ends_with_not : (s t : Text) → ends_with s t ≡ false → (front : Text) → s ≢ front ++ t
ends_with_not s t h front e =
    let ends : ends_with s t ≡ true =
      subst (λ x. ends_with x t ≡ true) (sym e) (ends_with-++ front t) in
    cc (h, ends)

has_scheme_yes : (node : Text) → has_scheme node ≡ true → HasScheme node
unfolding has_scheme
has_scheme_yes node h = elim (Bool-cases (starts_with node (codes "http://"))) [
  | inl e ↦
      let (rest, same) = starts_with_inv node (codes "http://") e in
      (codes "http://", rest, inl refl, same)
  | inr e ↦
      let (rest, same) = starts_with_inv node (codes "https://") (ground arith) in
      (codes "https://", rest, inr refl, same)
]

has_scheme_of : (scheme rest : Text) → IsScheme scheme → has_scheme (scheme ++ rest) ≡ true
unfolding has_scheme
has_scheme_of scheme rest (inl e) = rw e (unfold starts_with in refl)
has_scheme_of scheme rest (inr e) = rw e (unfold starts_with in refl)

has_scheme_not : (node : Text) → has_scheme node ≡ false → HasScheme node → ⊥
has_scheme_not node h (scheme, rest, s, e) =
    let yes : has_scheme node ≡ true =
      subst (λ x. has_scheme x ≡ true) (sym e) (has_scheme_of scheme rest s) in
    cc (h, yes)

skipped :
    (s : Text)
    → (n : ℕ) × (s ≡ slashes n ++ skip_slashes s)
      × (starts_with (skip_slashes s) (codes "/") ≡ false)
unfolding skip_slashes starts_with
skipped [] = (zero, refl, refl)
skipped (c ∷ cs) = elim (Bool-cases (c == b'/')) [
  | inl e ↦
      let (n, same, stops) = skipped cs in
      let is_slash : c ≡ b'/' = ground arith in rw e (suc n, cc (is_slash, same), stops)
  | inr e ↦ rw e (zero, refl, ground arith)
]

slash_last : (n : ℕ) → slashes n ++ codes "/" ≡ slashes (suc n)
slash_last zero = refl
slash_last (suc n) = ap (λ x. b'/' ∷ x) (slash_last n)

reverse-slashes : (n : ℕ) → reverse (slashes n) ≡ slashes n
reverse-slashes zero = refl
reverse-slashes (suc n) =
    reverse-append (codes "/") (slashes n)
    ∙ ap (λ x. x ++ codes "/") (reverse-slashes n)
    ∙ slash_last n

trimmed_slashes : (s : Text) → (n : ℕ) × (s ≡ trim_end_slashes s ++ slashes n)
unfolding trim_end_slashes
trimmed_slashes s =
    let (n, same, stops) = skipped (reverse s) in
    (
      n,
      sym (reverse-reverse s)
          ∙ ap reverse same
          ∙ reverse-append (slashes n) (skip_slashes (reverse s))
          ∙ ap (λ x. reverse (skip_slashes (reverse s)) ++ x) (reverse-slashes n),
    )

trimmed_end : (s front : Text) → trim_end_slashes s ≢ front ++ codes "/"
unfolding trim_end_slashes
trimmed_end s front e =
    let (n, same, stops) = skipped (reverse s) in
    let starts : skip_slashes (reverse s) ≡ codes "/" ++ reverse front =
      sym (reverse-reverse (skip_slashes (reverse s)))
      ∙ ap reverse e
      ∙ reverse-append front (codes "/") in
    let yes : starts_with (skip_slashes (reverse s)) (codes "/") ≡ true =
      subst (λ x. starts_with x (codes "/") ≡ true) (sym starts)
        (starts_with-++ (codes "/") (reverse front)) in
    cc (stops, yes)

-- For every node that the client is given: one that starts with `http://` or `https://` and
-- ends in `/status` is asked as it is; one that starts so and does not end so is asked without
-- the slashes at its end and with `/status` after it; and one that does not start so is asked
-- with `http://` before it and `/status` after it.
pub normalize_status_endpoint-Asks : (node : Text) → Asks node (normalize_status_endpoint node)
unfolding normalize_status_endpoint
normalize_status_endpoint-Asks node = elim (Bool-cases (has_scheme node)) [
  | inl scheme ↦ elim (Bool-cases (ends_with node (codes "/status"))) [
    | inl ends ↦
        let (front, e) = ends_with_inv node (codes "/status") ends in
        rw (scheme, ends) (complete front (has_scheme_yes node scheme) e)
    | inr bare_path ↦
        let (n, e) = trimmed_slashes node in
        rw (scheme, bare_path)
          (based (trim_end_slashes node) n (has_scheme_yes node scheme)
            (ends_with_not node (codes "/status") bare_path) e (trimmed_end node))
  ]
  | inr scheme ↦ rw scheme (bare (has_scheme_not node scheme))
]
