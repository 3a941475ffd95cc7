-- ===== src/Crypto/Grant/Paths.antt =====
-- Which paths a grant permits.
use mathlib.Core.Path.{subst}
use favonius.Base.{
  ℕ, ◌≡◌, ◌≢◌, ◌↔◌, ◌⊎◌, refl, sym, ap, ◌∙◌, Bool, true, false, List, [], ◌∷◌, ◌++◌, append_assoc,
  inl, inr, ◌==◌, ==_iff, ==_refl, same_bytes, same_bytes_sound, same_bytes_refl, Bool-cases,
  if◌then◌else◌,
}
use favonius.Crypto.Grant.{Grant, permits_path, starts_with, ends_with_slash, is_empty}

-- The granted prefix itself, or a path behind it that begins a new component.
pub data Permitted (prefix : List ℕ) : List ℕ → Type 0 where
  itself : prefix ≢ [] → Permitted prefix prefix
  in_directory : (name : List ℕ) → prefix ≢ [] → Permitted prefix (prefix ++ 0x2F ∷ name)
  after_slash :
      (before name : List ℕ) → prefix ≡ before ++ 0x2F ∷ [] → Permitted prefix (prefix ++ name)

starts_with_sound :
    (path prefix : List ℕ)
    → starts_with path prefix ≡ true
    → (rest : List ℕ) × (path ≡ prefix ++ rest)
starts_with_sound path [] e = (path, refl)
starts_with_sound [] (b ∷ bs) e = absurd (cc)
starts_with_sound (a ∷ path) (b ∷ bs) e =
    elim (Bool-cases (a == b)) as (λ _. (rest : List ℕ) × (a ∷ path ≡ b ∷ (bs ++ rest))) [
      | inl p ↦
          let more =
            starts_with_sound path bs
              (subst (λ (c : Bool). (if c then starts_with path bs else false) ≡ true) p e) in
          (more.0, cc (more.1, (==_iff a b).0 p))
      | inr p ↦ absurd (cc (e, p))
    ]

starts_with_append : (prefix rest : List ℕ) → starts_with (prefix ++ rest) prefix ≡ true
starts_with_append [] rest = refl
starts_with_append (b ∷ bs) rest = rw (==_refl b) (starts_with_append bs rest)

ends_with_slash_sound :
    (s : List ℕ) → ends_with_slash s ≡ true → (before : List ℕ) × (s ≡ before ++ 0x2F ∷ [])
ends_with_slash_sound [] e = absurd (cc)
ends_with_slash_sound (b ∷ []) e = ([], ap (λ (c : ℕ). c ∷ []) ((==_iff b 0x2F).0 e))
ends_with_slash_sound (b ∷ c ∷ bs) e =
    let more = ends_with_slash_sound (c ∷ bs) e in (b ∷ more.0, ap (◌∷◌ b) more.1)

ends_with_slash_append : (before : List ℕ) → ends_with_slash (before ++ 0x2F ∷ []) ≡ true
ends_with_slash_append [] = refl
ends_with_slash_append (b ∷ []) = refl
ends_with_slash_append (b ∷ c ∷ bs) = ends_with_slash_append (c ∷ bs)

ne_nil : (before : List ℕ) → before ++ 0x2F ∷ [] ≢ []
ne_nil [] e = cc
ne_nil (b ∷ bs) e = cc

is_empty-false : (s : List ℕ) → s ≢ [] → is_empty s ≡ false
is_empty-false [] h = absurd (h refl)
is_empty-false (b ∷ bs) h = refl

is_empty_ne : (s : List ℕ) → is_empty s ≡ false → s ≢ []
is_empty_ne s e p = cc (e, p)

both :
    (e s t : Bool)
    → (if e then false else if s then true else t) ≡ true
    → (e ≡ false) × ((s ≡ true) ⊎ (t ≡ true))
both true s t p = absurd (cc)
both false true t p = (refl, inl refl)
both false false t p = (refl, inr p)

-- The prefix as it is compared.
abbrev with_sep : List ℕ → List ℕ
with_sep prefix = if ends_with_slash prefix then prefix else prefix ++ 0x2F ∷ []

behind :
    (prefix rest : List ℕ) (c : Bool)
    → ends_with_slash prefix ≡ c
    → prefix ≢ []
    → Permitted prefix ((if c then prefix else prefix ++ 0x2F ∷ []) ++ rest)
behind prefix rest true e h =
    let ends = ends_with_slash_sound prefix e in after_slash ends.0 rest ends.1
behind prefix rest false e h =
    subst (Permitted prefix) (sym (append_assoc prefix (0x2F ∷ []) rest)) (in_directory rest h)

abbrev allowed : List ℕ → List ℕ → Bool
allowed prefix path =
    if is_empty prefix
    then false
    else if same_bytes path prefix
    then true
    else starts_with path (with_sep prefix)

either : (c r : Bool) → r ≡ true → (if c then true else r) ≡ true
either true r e = refl
either false r e = e

accepted :
    (prefix path : List ℕ)
    → prefix ≢ []
    → starts_with path (with_sep prefix) ≡ true
    → allowed prefix path ≡ true
accepted prefix path h s = rw (is_empty-false prefix h) (either _ _ s)

sep_starts :
    (prefix name : List ℕ) (c : Bool)
    → starts_with (prefix ++ 0x2F ∷ name) (if c then prefix else prefix ++ 0x2F ∷ []) ≡ true
sep_starts prefix name true = starts_with_append prefix (0x2F ∷ name)
sep_starts prefix name false =
    subst (λ (path : List ℕ). starts_with path (prefix ++ 0x2F ∷ []) ≡ true)
      (append_assoc prefix (0x2F ∷ []) name) (starts_with_append (prefix ++ 0x2F ∷ []) name)

Permitted-allowed :
    {prefix : List ℕ} (path : List ℕ) → Permitted prefix path → allowed prefix path ≡ true
Permitted-allowed path (itself h) = rw (is_empty-false path h, same_bytes_refl path) refl
Permitted-allowed {prefix} path (in_directory name h) =
    accepted prefix path h (sep_starts prefix name _)
Permitted-allowed {prefix} path (after_slash before name e) =
    accepted prefix path (λ p. ne_nil before (sym e ∙ p))
      (subst (λ (c : Bool). starts_with path (if c then prefix else prefix ++ 0x2F ∷ []) ≡ true)
        (sym (ap ends_with_slash e ∙ ends_with_slash_append before))
        (starts_with_append prefix name))

-- A grant permits its prefix, and what stands behind it and a separator; one for the empty path
-- permits nothing.
pub permits_path_iff :
    (g : Grant) (path : List ℕ) → (permits_path g path ≡ true) ↔ Permitted g.path_prefix path
unfolding permits_path
permits_path_iff g path = (to, Permitted-allowed path)
  where
    prefix : List ℕ
    prefix = g.path_prefix

    to : permits_path g path ≡ true → Permitted g.path_prefix path
    to e =
        let parts =
          both (is_empty prefix) (same_bytes path prefix) (starts_with path (with_sep prefix)) e in
        let h = is_empty_ne prefix parts.0 in
        elim (parts.1) [
          | inl p ↦ subst (Permitted prefix) (sym (same_bytes_sound path prefix p)) (itself h)
          | inr p ↦
              let more = starts_with_sound path (with_sep prefix) p in
              subst (Permitted prefix) (sym more.1) (behind prefix more.0 _ refl h)
        ]
