-- ===== src/Flags/Listing.antt =====
-- What the admin panel lists: the map, walked in whatever order, by key.
use mathlib.Core.List.{Permᴰ}
use tripbot.Base.{
  Text, same_text, same_text_eq, same_text_other, ◌≡◌, refl, subst, ap, ◌∙◌, inl, inr, true, false,
  Option, none, some, List, [], ◌∷◌, arith, All, Bool-cases, if◌then◌else◌,
}
use tripbot.Flags.{
  Flag, FlagRow, to_flag, FlagMap, lookup, store, fill, values, less, insert_flag, sort_flags,
  snapshot,
}
use tripbot.Flags.Served.{lookup-store}

less-apart : (x y : Text) → less x y ≡ true → same_text y x ≡ false
less-apart [] [] h = ground (arith, h)
less-apart [] (b ∷ y) h = refl
less-apart (a ∷ x) [] h = refl
less-apart (a ∷ x) (b ∷ y) h = ground (arith, h, less-apart x y)

less_trans : (x y z : Text) → less x y ≡ true → less y z ≡ true → less x z ≡ true
less_trans [] [] z h k = ground (arith, h)
less_trans [] (b ∷ y) [] h k = k
less_trans [] (b ∷ y) (c ∷ z) h k = refl
less_trans (a ∷ x) [] z h k = ground (arith, h)
less_trans (a ∷ x) (b ∷ y) [] h k = k
less_trans (a ∷ x) (b ∷ y) (c ∷ z) h k = ground (arith, h, k, less_trans x y z)

less_total : (x y : Text) → less x y ≡ false → same_text x y ≡ false → less y x ≡ true
less_total [] [] h k = ground (arith, k)
less_total [] (b ∷ y) h k = ground (arith, h)
less_total (a ∷ x) [] h k = refl
less_total (a ∷ x) (b ∷ y) h k = ground (arith, h, k, less_total x y)

-- The flag of a key in a listing.
abbrev pub listed : Text → List Flag → Option Flag
listed k [] = none
listed k (f ∷ fs) = let rest = listed k fs in if same_text f.key k then some f else rest

listed-insert_flag :
    (k : Text) (f : Flag) (gs : List Flag)
    → listed k (insert_flag f gs) ≡ (if same_text f.key k then some f else listed k gs)
unfolding insert_flag
listed-insert_flag k f [] = refl
listed-insert_flag k f (g ∷ gs) = elim (Bool-cases (less g.key f.key)) [
  | inr late ↦ rw (insert_flag, late) refl
  | inl early ↦ elim (Bool-cases (same_text g.key k)) [
    | inr other ↦ ground (arith, early, other, listed-insert_flag k f gs)
    | inl same ↦
        let apart : same_text f.key k ≡ false =
          subst (λ x. same_text f.key x ≡ false) (same_text_eq g.key k same)
            (less-apart g.key f.key early) in
        ground (arith, early, same, apart)
  ]
]

listed-sort_flags : (k : Text) (fs : List Flag) → listed k (sort_flags fs) ≡ listed k fs
unfolding sort_flags
listed-sort_flags k [] = refl
listed-sort_flags k (f ∷ fs) =
    listed-insert_flag k f (sort_flags fs)
    ∙ ap (λ r. if same_text f.key k then some f else r) (listed-sort_flags k fs)

-- Each key comes before those after it.
abbrev pub IsAscending : List Flag → Type 0
IsAscending [] = Unit
IsAscending (f ∷ fs) = All (λ g. less f.key g.key ≡ true) fs × IsAscending fs

All_less-insert_flag :
    (k : Text) (f : Flag) (gs : List Flag)
    → less k f.key ≡ true
    → All (λ g. less k g.key ≡ true) gs
    → All (λ g. less k g.key ≡ true) (insert_flag f gs)
unfolding insert_flag
All_less-insert_flag k f [] h r = (h, tt)
All_less-insert_flag k f (g ∷ gs) h r = elim (Bool-cases (less g.key f.key)) [
  | inr late ↦ rw (insert_flag, late) (h, r)
  | inl early ↦ rw (insert_flag, early) (r.0, All_less-insert_flag k f gs h r.1)
]

All_less_trans :
    (k j : Text) (gs : List Flag)
    → less k j ≡ true
    → All (λ g. less j g.key ≡ true) gs
    → All (λ g. less k g.key ≡ true) gs
All_less_trans k j [] h r = tt
All_less_trans k j (g ∷ gs) h r = (less_trans k j g.key h r.0, All_less_trans k j gs h r.1)

insert_flag-IsAscending :
    (f : Flag) (gs : List Flag)
    → listed f.key gs ≡ none
    → IsAscending gs
    → IsAscending (insert_flag f gs)
unfolding insert_flag
insert_flag-IsAscending f [] new up = (tt, tt)
insert_flag-IsAscending f (g ∷ gs) new up = elim (Bool-cases (less g.key f.key)) [
  | inl early ↦
      rw (insert_flag, early)
        (
          All_less-insert_flag g.key f gs early up.0,
          insert_flag-IsAscending f gs (ground (arith, new)) up.1,
        )
  | inr late ↦
      let before = less_total g.key f.key late (ground (arith, new)) in
      rw (insert_flag, late) ((before, All_less_trans f.key g.key gs before up.0), up)
]

-- A map holds each flag at its key, and no key twice.
abbrev IsMap : FlagMap → Type 0
IsMap [] = Unit
IsMap ((j, f) ∷ m) = (j ≡ f.key) × (lookup j m ≡ none) × IsMap m

store-IsMap : (f : Flag) (m : FlagMap) → IsMap m → IsMap (store f.key f m)
unfolding store lookup
store-IsMap f [] h = (refl, refl, tt)
store-IsMap f ((j, g) ∷ m) (e, new, h) = elim (Bool-cases (same_text j f.key)) [
  | inl same ↦
      rw (store, same) (refl, subst (λ x. lookup x m ≡ none) (same_text_eq j f.key same) new, h)
  | inr other ↦
      rw (store, other)
        (e, lookup-store f.key j f m ∙ rw (same_text_other j f.key other) new, store-IsMap f m h)
]

fill-IsMap : (m : FlagMap) (rs : List FlagRow) → IsMap m → IsMap (fill m rs)
unfolding fill
fill-IsMap m [] h = h
fill-IsMap m (r ∷ rs) h = fill-IsMap (store r.key (to_flag r) m) rs (store-IsMap (to_flag r) m h)

-- Another order of a map, with the same flags.
abbrev Rearranged : FlagMap → FlagMap → Type 0
Rearranged m w = IsMap w × ((k : Text) → lookup k w ≡ lookup k m)

swap-IsMap :
    (a b : Text × Flag) (l : FlagMap) → IsMap (a ∷ b ∷ l) → Rearranged (a ∷ b ∷ l) (b ∷ a ∷ l)
unfolding lookup
swap-IsMap (i, f) (j, g) l (e, new, (e', new', h)) =
    let apart : same_text j i ≡ false = ground (arith, new) in
    let other = same_text_other j i apart in
    (
      (e', rw other new', (e, ground (arith, new, apart), h)),
      λ k. elim (Bool-cases (same_text i k)) [
        | inr miss ↦ ground (arith, miss)
        | inl hit ↦
            let miss : same_text j k ≡ false =
              subst (λ x. same_text j x ≡ false) (same_text_eq i k hit) apart in
            ground (arith, hit, miss)
      ],
    )

walk-IsMap : {m w : FlagMap} → Permᴰ m w → IsMap m → Rearranged m w
unfolding lookup
walk-IsMap Permᴰ.nil h = (h, λ k. refl)
walk-IsMap (Permᴰ.cons {a} {b} {l₁} {l₂} e p) (own, new, h) =
    let (below, same) = walk-IsMap p h in
    subst (λ x. Rearranged (a ∷ l₁) (x ∷ l₂)) e
      (
        (own, same a.0 ∙ new, below),
        λ k. ap (λ r. if same_text a.0 k then some a.1 else r) (same k),
      )
walk-IsMap (Permᴰ.swap {a} {b} {a'} {b'} {l} p q) h =
    subst (λ x. Rearranged (a ∷ b ∷ l) (a' ∷ x ∷ l)) p
      (subst (λ x. Rearranged (a ∷ b ∷ l) (x ∷ a ∷ l)) q (swap-IsMap a b l h))
walk-IsMap (Permᴰ.trans p q) h =
    let (hv, v) = walk-IsMap p h in let (hw, w) = walk-IsMap q hv in (hw, λ k. w k ∙ v k)

listed-values : (k : Text) (m : FlagMap) → IsMap m → listed k (values m) ≡ lookup k m
unfolding lookup
listed-values k [] h = refl
listed-values k ((j, f) ∷ m) (e, new, h) =
    rw e (ap (λ r. if same_text f.key k then some f else r) (listed-values k m h))

sort_flags-IsAscending : (m : FlagMap) → IsMap m → IsAscending (sort_flags (values m))
unfolding sort_flags
sort_flags-IsAscending [] h = tt
sort_flags-IsAscending ((j, f) ∷ m) (e, new, h) =
    insert_flag-IsAscending f (sort_flags (values m))
      (listed-sort_flags f.key (values m)
        ∙ listed-values f.key m h
        ∙ subst (λ x. lookup x m ≡ none) e new)
      (sort_flags-IsAscending m h)

-- The listing of the rows of a load, in whatever order the map is walked: the keys ascend, so none
-- comes twice, and each key has the flag that `Bool` reads, or none when there is none.
pub snapshot-IsAscending :
    (rows : List FlagRow) (walk : FlagMap)
    → Permᴰ (fill [] rows) walk
    → IsAscending (snapshot walk)
      × ((k : Text) → listed k (snapshot walk) ≡ lookup k (fill [] rows))
unfolding snapshot
snapshot-IsAscending rows walk p =
    let (h, same) = walk-IsMap p (fill-IsMap [] rows tt) in
    (
      sort_flags-IsAscending walk h,
      λ k. listed-sort_flags k (values walk) ∙ listed-values k walk h ∙ same k,
    )
