-- ===== src/Base/Text.antt =====
-- A Python `str` as its code points.
use Prim.Native.Nat.{ℕ, ◌-◌}
use Prim.Native.Char.{code}
use Prim.Native.String.{String}
use mathlib.Core.Path.{◌≡◌, refl, ap, ◌∙◌}
use mathlib.Core.Bool.{Bool, true, false, ◌&&◌}
use mathlib.Core.List.{List, [], ◌∷◌, ◌++◌, reverse, reverse-append}
use native.Mathlib.Omega.{arith}
use confiture.Base.Tests.{ltb, nat_beq, if◌then◌else◌}
use mathlib.Core.Logic.{◌↔◌}
use confiture.Base.Equality.{◌==◌, nat_eq, list_eq}
use confiture.Base.Lists.{length, take, All, length-append}

abbrev pub Text : Type 0
Text = List ℕ

abbrev pub codes : String → Text
codes String.[] = []
codes (String.◌∷◌ c s) = code c ∷ codes s

-- `s > t`, by code points.
abbrev pub text_gt : Text → Text → Bool
text_gt [] t = false
text_gt (c ∷ s) [] = true
text_gt (c ∷ s) (d ∷ t) = let rest = text_gt s t in if nat_beq c d then rest else ltb d c

-- `s.startswith(t)`
abbrev pub starts_with : Text → Text → Bool
starts_with s [] = true
starts_with [] (d ∷ t) = false
starts_with (c ∷ s) (d ∷ t) = nat_beq c d && starts_with s t

-- `s.endswith(t)`
abbrev pub ends_with : Text → Text → Bool
ends_with s t = starts_with (reverse s) (reverse t)

-- `s[:-n]`, for a positive `n`.
abbrev pub drop_last : ℕ → Text → Text
drop_last n s = take (length s - n) s

-- `s.split(c)[0]`: what stands before the first `c`.
abbrev pub before : ℕ → Text → Text
before c [] = []
before c (d ∷ s) = let rest = d ∷ before c s in if nat_beq d c then [] else rest

pub text_eq_iff : (s t : Text) → ((s == t) ≡ true) ↔ (s ≡ t)
text_eq_iff s t = list_eq.same_iff s t

pub text_gt-asym : (s t : Text) → text_gt s t ≡ true → text_gt t s ≡ false
text_gt-asym [] t h = cc
text_gt-asym (c ∷ s) [] h = refl
text_gt-asym (c ∷ s) (d ∷ t) h = ground (arith, text_gt-asym s t)

pub starts_with-append : (t s : Text) → starts_with (t ++ s) t ≡ true
starts_with-append [] [] = refl
starts_with-append [] (c ∷ s) = refl
starts_with-append (d ∷ t) s = ground (arith, starts_with-append t s)

pub ends_with-append : (s t : Text) → ends_with (s ++ t) t ≡ true
ends_with-append s t = rw (reverse-append s t) (starts_with-append (reverse t) (reverse s))

take_all-append : (s t : Text) → take (length s) (s ++ t) ≡ s
take_all-append [] t = refl
take_all-append (c ∷ s) t = ap (λ l. c ∷ l) (take_all-append s t)

pub drop_last-append : (s t : Text) → drop_last (length t) (s ++ t) ≡ s
drop_last-append s t =
    let e : length (s ++ t) - length t ≡ length s = omega (arith, length-append s t) in
    rw e (take_all-append s t)

-- A version has no underscore, so splitting gives it back.
pub before-append :
    (c : ℕ) (s t : Text) → All (λ d. nat_beq d c ≡ false) s → before c (s ++ (c ∷ t)) ≡ s
before-append c [] t h = ground arith
before-append c (d ∷ s) t h = ground (arith, before-append c s t h.1)

-- `sep.join(parts)`
abbrev pub join : Text → List Text → Text
join sep [] = []
join sep (part ∷ []) = part
join sep (part ∷ next ∷ parts) = part ++ (sep ++ join sep (next ∷ parts))

-- `s.split(c)`: the parts between the characters `c`.
abbrev pub push : ℕ → List Text → List Text
push d [] = (d ∷ []) ∷ []
push d (part ∷ parts) = (d ∷ part) ∷ parts

abbrev pub split : ℕ → Text → List Text
split c [] = [] ∷ []
split c (d ∷ s) = let rest = split c s in if nat_beq d c then [] ∷ rest else push d rest

split_free : (c : ℕ) (s : Text) → All (λ d. nat_beq d c ≡ false) s → split c s ≡ s ∷ []
split_free c [] h = refl
split_free c (d ∷ s) h = ground (arith, split_free c s h.1)

split_before :
    (c : ℕ) (s t : Text) → All (λ d. nat_beq d c ≡ false) s → split c (s ++ (c ∷ t)) ≡ s ∷ split c t
split_before c [] t h = ground arith
split_before c (d ∷ s) t h = ground (arith, split_before c s t h.1)

pub split-join :
    (c : ℕ) (part : Text) (parts : List Text)
    → All (λ p. All (λ d. nat_beq d c ≡ false) p) (part ∷ parts)
    → split c (join (c ∷ []) (part ∷ parts)) ≡ part ∷ parts
split-join c part [] h = split_free c part h.0
split-join c part (next ∷ parts) h =
    split_before c part (join (c ∷ []) (next ∷ parts)) h.0
    ∙ ap (λ l. part ∷ l) (split-join c next parts h.1)
