-- ===== src/Versioning/Order.antt =====
-- Proofs about the comparisons of rule versions.
use confiture.Base.{ℕ, ◌≡◌, true, not, ◌&&◌, ◌||◌, ◌↔◌, ◌==◌, nat_eq, nat_beq_iff, arith, and_true}
use confiture.Versioning.{RuleVersion, version_lt, version_le, version_eq, version_gt, version_ge}

made :
    (a b c x y z : ℕ)
    → a ≡ x
    → b ≡ y
    → c ≡ z
    → ◌≡◌ {A = RuleVersion}
        (record { major = a; minor = b; patch = c })
        (record { major = x; minor = y; patch = z })
made a b c x y z p q r = cc

same_version : (v w : RuleVersion) → version_eq v w ≡ true → v ≡ w
unfolding version_eq
same_version v w h =
    let (first, rest) =
      and_true (v.major == w.major) (v.minor == w.minor && v.patch == w.patch) h in
    let (second, third) = and_true (v.minor == w.minor) (v.patch == w.patch) rest in
    made v.major v.minor v.patch w.major w.minor w.patch ((nat_beq_iff v.major w.major).0 first)
      ((nat_beq_iff v.minor w.minor).0 second) ((nat_beq_iff v.patch w.patch).0 third)

pub le_trans :
    (u v w : RuleVersion) → version_le u v ≡ true → version_le v w ≡ true → version_le u w ≡ true
unfolding version_le version_lt version_eq
le_trans u v w h k = ground arith

lt_or_ge : (v w : RuleVersion) → version_lt v w ≡ not (version_ge v w)
unfolding version_ge version_le version_lt version_eq
lt_or_ge v w = ground arith

le_refl : (v : RuleVersion) → version_le v v ≡ true
unfolding version_le version_lt version_eq
le_refl v = ground arith

antisym :
    (v w : RuleVersion) → version_le v w ≡ true → version_le w v ≡ true → version_eq v w ≡ true
unfolding version_le version_lt version_eq
antisym v w h k = ground arith

le_total : (v w : RuleVersion) → (version_le v w || version_le w v) ≡ true
unfolding version_le version_lt version_eq
le_total v w = ground arith

gt_or_le : (v w : RuleVersion) → version_lt w v ≡ not (version_le v w)
unfolding version_le version_lt version_eq
gt_or_le v w = ground arith

eq_refl : (v : RuleVersion) → version_eq v v ≡ true
unfolding version_eq
eq_refl v = ground arith

-- The comparison `<=` of rule versions is a linear order: any two versions are comparable, it is
-- transitive, and versions that are below each other are the same; `<` is what `>=` is not, `>=` and
-- `>` are the comparisons turned around, and `==` says that two versions are the same.
pub version_order :
    (u v w : RuleVersion)
    → ((version_le v w || version_le w v) ≡ true)
      × (version_le u v ≡ true → version_le v w ≡ true → version_le u w ≡ true)
      × (version_le v w ≡ true → version_le w v ≡ true → v ≡ w)
      × (version_lt v w ≡ not (version_ge v w))
      × (version_gt v w ≡ not (version_le v w))
      × ((version_eq v w ≡ true) ↔ (v ≡ w))
unfolding version_gt
version_order u v w = (
  le_total v w,
  le_trans u v w,
  λ h k. same_version v w (antisym v w h k),
  lt_or_ge v w,
  gt_or_le v w,
  (same_version v w, λ e. rw e (eq_refl w)),
)
