-- ===== src/Conf/Names.antt =====
-- The names of the configuration, in libcwmp/src/cfg.c.
use netcwmp.Common.{
  ℕ, true, false, [], ◌∷◌, ◌++◌, Option, none, some, Bytes, ◌≡◌, ◌↔◌, refl, sym, ap, ◌∙◌, subst,
  arith, ◌==◌, without, without_sound, if◌then◌else◌, codes, ==_iff, length, ◌<◌,
}
use netcwmp.Conf.{before_colon, conf_split}

-- A name: the section, a colon and the key.
abbrev pub with_colon : Bytes → Bytes → Bytes
with_colon s k = s ++ 58 ∷ k

before_colon-with_colon :
    (s k : Bytes) → without 58 s ≡ true → before_colon (with_colon s k) ≡ some (s, k)
unfolding before_colon
before_colon-with_colon [] k h = refl
before_colon-with_colon (c ∷ s) k h =
    let no_colon = (without_sound 58 (c ∷ s) h).0 in
    rw (no_colon, before_colon-with_colon s k (ground (arith, h, no_colon))) refl

-- A division of a name at its first colon.
abbrev IsDivision : Bytes → Bytes × Bytes → Type 0
IsDivision name (s, k) = (name ≡ with_colon s k) × (without 58 s ≡ true)

longer :
    (c : ℕ) (name : Bytes) (o : Option (Bytes × Bytes)) (r : Bytes × Bytes)
    → (c == 58) ≡ false
    → ((q : Bytes × Bytes) → o ≡ some q → IsDivision name q)
    → ◌≡◌ {A = Option (Bytes × Bytes)}
        (elim o [ none ↦ none | some (s, k) ↦ some (c ∷ s, k) ])
        (some r)
    → IsDivision (c ∷ name) r
longer c name none r other ih e = absurd (ground (arith, e))
longer c name (some (s, k)) r other ih e =
    let (whole, plain) = ih (s, k) refl in
    subst (IsDivision (c ∷ name)) (ap (λ o. elim o [ none ↦ (c ∷ s, k) | some q ↦ q ]) e)
      (ap (◌∷◌ c) whole, rw other plain)

before_colon-IsDivision :
    (name : Bytes) (r : Bytes × Bytes) → before_colon name ≡ some r → IsDivision name r
unfolding before_colon
before_colon-IsDivision [] r e = absurd (ground (arith, e))
before_colon-IsDivision (c ∷ name) r e =
    elim (c == 58)
        as (λ b.
          (c == 58) ≡ b
          → ◌≡◌ {A = Option (Bytes × Bytes)}
              (if b
                then some ([], name)
                else elim (before_colon name) [ none ↦ none | some (s, k) ↦ some (c ∷ s, k) ])
              (some r)
          → IsDivision (c ∷ name) r) [
            | true ↦ λ colon found.
                subst (IsDivision (c ∷ name))
                  (ap (λ o. elim o [ none ↦ ([], name) | some q ↦ q ]) found)
                  (ap (λ d. d ∷ name) ((==_iff c 58).0 colon), refl)
            | false ↦ λ other found.
                longer c name (before_colon name) r other (λ q. before_colon-IsDivision name q)
                  found
          ]
      refl e

split_of : Option (Bytes × Bytes) → Bytes × Option Bytes
split_of none = (codes "cwmp", none)
split_of (some (s, k)) = (s, some k)

key_set :
    (o : Option (Bytes × Bytes)) (s k : Bytes)
    → ◌≡◌ {A = Bytes × Option Bytes} (split_of o) (s, some k)
    → o ≡ some (s, k)
unfolding split_of
key_set none s k e = absurd (ground (arith, ap (λ p. p.1) e))
key_set (some (a, b)) s k e =
    ap (λ (p : Bytes × Option Bytes). some (p.0, elim p.1 [ none ↦ b | some c ↦ c ])) e

conf_split-split_of : (name : Bytes) → conf_split name ≡ split_of (before_colon name)
unfolding conf_split split_of
conf_split-split_of name =
    elim (before_colon name)
      as (λ o.
        ◌≡◌ {A = Bytes × Option Bytes}
          (elim o [ none ↦ (codes "cwmp", none) | some (s, k) ↦ (s, some k) ]) (split_of o)) [
            | none ↦ refl
            | some (s, k) ↦ refl
          ]

-- A name is divided into a section and a key that is set exactly where it is the section, a colon and
-- the key, and there is no colon in the section; the key may have some. The name is shorter than the
-- buffer of 128 bytes.
pub conf_split-with_colon :
    (name s k : Bytes)
    → length name < 128
    → (conf_split name ≡ (s, some k)) ↔ ((name ≡ with_colon s k) × (without 58 s ≡ true))
unfolding split_of
conf_split-with_colon name s k short = (
  λ e.
      before_colon-IsDivision name (s, k)
        (key_set (before_colon name) s k (sym (conf_split-split_of name) ∙ e)),
  λ d.
      ap conf_split d.0
      ∙ conf_split-split_of (with_colon s k)
      ∙ ap split_of (before_colon-with_colon s k d.1),
)
