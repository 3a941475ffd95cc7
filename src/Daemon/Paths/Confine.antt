-- ===== src/Daemon/Paths/Confine.antt =====
-- Destinations and the roots that they are under (confine_dest_path_any).
use mathlib.Core.Path.{subst}
use favonius.Base.{
  ℕ, ◌≡◌, refl, sym, ap, ◌∙◌, Bool, true, false, List, [], ◌∷◌, ◌++◌, append_assoc, append-nil, inl,
  inr, same_bytes_sound, same_bytes_refl, Bool-cases, if◌then◌else◌, Outcome, ok, fail_if, ◌>>◌,
  Checked, good, bad, Checked-guard,
}
use favonius.Daemon.Paths.{
  Component, root_dir, cur_dir, parent_dir, normal, Components, pop, join, same_component,
  starts_with, normalize_step, normalize_from, lexical_normalize, EscapesRoot, escapes_root,
  confine_dest_path, first_ok, confine_dest_path_any,
}

-- Names only: no `..`, no `.` and no root.
pub data Names : Components → Type 0 where
  no_more : Names []
  name : {n : List ℕ} {rest : Components} → Names rest → Names (normal n ∷ rest)

-- A path without `..`, absolute or not.
data Plain : Components → Type 0 where
  relative : {path : Components} → Names path → Plain path
  absolute : {path : Components} → Names path → Plain (root_dir ∷ path)

Names-append : {a b : Components} → Names a → Names b → Names (a ++ b)
Names-append no_more q = q
Names-append (name p) q = name (Names-append p q)

Names-pop : {path : Components} → Names path → Names (pop path)
Names-pop no_more = no_more
Names-pop (name no_more) = no_more
Names-pop (name (name p)) = name (Names-pop (name p))

Plain-pop : {path : Components} → Plain path → Plain (pop path)
Plain-pop (relative p) = relative (Names-pop p)
Plain-pop (absolute no_more) = absolute no_more
Plain-pop (absolute (name p)) = absolute (Names-pop (name p))

Plain-push : {path : Components} (n : List ℕ) → Plain path → Plain (path ++ normal n ∷ [])
Plain-push n (relative p) = relative (Names-append p (name no_more))
Plain-push n (absolute p) = absolute (Names-append p (name no_more))

Plain-step : (out : Components) (c : Component) → Plain out → Plain (normalize_step out c)
Plain-step out root_dir p = absolute no_more
Plain-step out cur_dir p = p
Plain-step out parent_dir p = Plain-pop p
Plain-step out (normal n) p = Plain-push n p

normalize_from-Plain : (out path : Components) → Plain out → Plain (normalize_from out path)
unfolding normalize_from
normalize_from-Plain out [] p = p
normalize_from-Plain out (c ∷ path) p =
    normalize_from-Plain (normalize_step out c) path (Plain-step out c p)

-- An absolute path of names, as `canonicalize` gives the root.
pub data IsCanonical : Components → Type 0 where
  canonical : {path : Components} → Names path → IsCanonical (root_dir ∷ path)

-- The path is the root and names behind it.
pub data Under (root : Components) : Components → Type 0 where
  under : {rest : Components} → Names rest → Under root (root ++ rest)

same_component_sound : (c d : Component) → same_component c d ≡ true → c ≡ d
same_component_sound root_dir root_dir e = refl
same_component_sound cur_dir cur_dir e = refl
same_component_sound parent_dir parent_dir e = refl
same_component_sound (normal a) (normal b) e = ap normal (same_bytes_sound a b e)
same_component_sound root_dir cur_dir e = absurd (cc)
same_component_sound root_dir parent_dir e = absurd (cc)
same_component_sound root_dir (normal b) e = absurd (cc)
same_component_sound cur_dir root_dir e = absurd (cc)
same_component_sound cur_dir parent_dir e = absurd (cc)
same_component_sound cur_dir (normal b) e = absurd (cc)
same_component_sound parent_dir root_dir e = absurd (cc)
same_component_sound parent_dir cur_dir e = absurd (cc)
same_component_sound parent_dir (normal b) e = absurd (cc)
same_component_sound (normal a) root_dir e = absurd (cc)
same_component_sound (normal a) cur_dir e = absurd (cc)
same_component_sound (normal a) parent_dir e = absurd (cc)

starts_with_sound :
    (path base : Components)
    → starts_with path base ≡ true
    → (rest : Components) × (path ≡ base ++ rest)
starts_with_sound path [] e = (path, refl)
starts_with_sound [] (c ∷ base) e = absurd (cc)
starts_with_sound (d ∷ path) (c ∷ base) e =
    elim (Bool-cases (same_component d c))
      as (λ _. (rest : Components) × (d ∷ path ≡ c ∷ (base ++ rest))) [
        | inl p ↦
            let more =
              starts_with_sound path base
                (subst (λ (b : Bool). (if b then starts_with path base else false) ≡ true) p e) in
            (more.0, cc (more.1, same_component_sound d c p))
        | inr p ↦ absurd (cc (e, p))
      ]

rest-Names : (a b : Components) → Names (a ++ b) → Names b
rest-Names [] b p = p
rest-Names (normal n ∷ a) b (name p) = rest-Names a b p
rest-Names (root_dir ∷ a) b p = elim p [ ]
rest-Names (cur_dir ∷ a) b p = elim p [ ]
rest-Names (parent_dir ∷ a) b p = elim p [ ]

behind_root :
    {root : Components} (rest : Components) → IsCanonical root → Plain (root ++ rest) → Names rest
behind_root rest (canonical {path} q) (absolute p) = rest-Names path rest p
behind_root rest (canonical q) (relative p) = elim p [ ]

true_of : (b : Bool) → (if b then false else true) ≡ false → b ≡ true
true_of true e = refl
true_of false e = sym e

-- A destination, whatever components it has, is refused or becomes a path under the root: the root and
-- then names, without `..`.
confine_dest_path_lem :
    (root dest : Components) → IsCanonical root → Checked (Under root) (confine_dest_path root dest)
unfolding confine_dest_path lexical_normalize
confine_dest_path_lem root dest h =
    Checked-guard _ (if starts_with joined root then false else true) escapes_root _ (λ e.
      let more = starts_with_sound joined root (true_of _ e) in
      good (
        subst (Under root) (sym more.1) (
          under (
            behind_root more.0 h
              (subst Plain more.1 (normalize_from-Plain [] (join root dest) (relative no_more)))))))
  where
    joined : Components
    joined = normalize_from [] (join root dest)

-- The roots are canonical.
pub data AllCanonical : List Components → Type 0 where
  no_roots : AllCanonical []
  root_and :
      {root : Components} {roots : List Components}
      → IsCanonical root
      → AllCanonical roots
      → AllCanonical (root ∷ roots)

-- The path lies under one of the roots.
pub data UnderAny : List Components → Components → Type 0 where
  this :
      {root path : Components} {roots : List Components}
      → Under root path
      → UnderAny (root ∷ roots) path
  other :
      {root path : Components} {roots : List Components}
      → UnderAny roots path
      → UnderAny (root ∷ roots) path

first_ok_lem :
    {root : Components} {roots : List Components} {m n : Outcome EscapesRoot Components}
    → Checked (Under root) m
    → Checked (UnderAny roots) n
    → Checked (UnderAny (root ∷ roots)) (first_ok m n)
first_ok_lem (good p) q = good (this p)
first_ok_lem bad (good q) = good (other q)
first_ok_lem bad bad = bad

-- With absolute roots of names only, a sender's destination, whatever components it has, is refused or
-- becomes a path under one of the roots: that root and then names, without `..`, `.` or another root.
pub confine_dest_path_any_lem :
    (roots : List Components) (dest : Components)
    → AllCanonical roots
    → Checked (UnderAny roots) (confine_dest_path_any roots dest)
unfolding confine_dest_path_any
confine_dest_path_any_lem _ dest no_roots = bad
confine_dest_path_any_lem _ dest (root_and {root} {roots} h hs) =
    first_ok_lem (confine_dest_path_lem root dest h) (confine_dest_path_any_lem roots dest hs)

same_component_refl : (c : Component) → same_component c c ≡ true
same_component_refl root_dir = refl
same_component_refl cur_dir = refl
same_component_refl parent_dir = refl
same_component_refl (normal a) = same_bytes_refl a

starts_with-append : (base rest : Components) → starts_with (base ++ rest) base ≡ true
starts_with-append [] rest = refl
starts_with-append (c ∷ base) rest = rw (same_component_refl c) (starts_with-append base rest)

normalize_from-Names :
    {path : Components} (out : Components) → Names path → normalize_from out path ≡ out ++ path
unfolding normalize_from
normalize_from-Names out no_more = sym (append-nil out)
normalize_from-Names out (name {n} {rest} p) =
    normalize_from-Names (out ++ normal n ∷ []) p ∙ append_assoc out (normal n ∷ []) rest

join-Names : {dest : Components} (root : Components) → Names dest → join root dest ≡ root ++ dest
join-Names root no_more = refl
join-Names root (name p) = refl

whole :
    {root dest : Components}
    → IsCanonical root
    → Names dest
    → normalize_from [] (join root dest) ≡ root ++ dest
unfolding normalize_from
whole {root} {dest} (canonical q) p =
    ap (normalize_from []) (join-Names root p)
    ∙ normalize_from-Names (root_dir ∷ []) (Names-append q p)

-- A relative destination of names only is accepted, and stands behind the root as it was sent.
pub confine_dest_path-Names :
    (root dest : Components)
    → IsCanonical root
    → Names dest
    → confine_dest_path root dest ≡ ok (root ++ dest)
unfolding confine_dest_path lexical_normalize
confine_dest_path-Names root dest h p =
    ap
      (λ (path : Components).
        fail_if (if starts_with path root then false else true) escapes_root >> ok path)
      (whole h p)
    ∙ ap (λ (b : Bool). fail_if (if b then false else true) escapes_root >> ok (root ++ dest))
        (starts_with-append root dest)
