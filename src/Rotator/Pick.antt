-- ===== src/Rotator/Pick.antt =====
-- The line that a corner shows.
use tripbot.Base.Int.{ℤ, pos, negsuc}
use tripbot.Base.{
  Text, ℕ, zero, suc, ◌⊎◌, refl, ap, ◌∙◌, ◌+◌, ◌-◌, ◌≤◌, ◌<◌, ◌≡◌, ◌≢◌, inl, inr, Bool, true, List,
  [], ◌∷◌, ◌++◌, arith, Bool-cases, lt_or_le,
}
use tripbot.Rotator.Fits.{Fits, eligible-Fits, Fits-eligible}
use tripbot.Rotator.{
  Vars, Message, weight_of, weighted, eligible, total, choose, expand, pick_once, pick,
}

-- A message of the list that passes the test.
pub data Has (ok : Message → Bool) (m : Message) : List Message → Type 0 where
  here : (ms : List Message) → ok m ≡ true → Has ok m (m ∷ ms)
  there : (x : Message) (ms : List Message) → Has ok m ms → Has ok m (x ∷ ms)

module _ (ok : Message → Bool) where
  choose_hits :
      (show : Message → Text) (n : ℕ) (ms : List Message)
      → n < total ok ms
      → (m : Message) × Has ok m ms × (choose ok show n ms ≡ show m)
  unfolding total choose
  choose_hits show n [] h = absurd (omega (arith, h))
  choose_hits show n (m ∷ ms) h = elim (Bool-cases (ok m)) [
    | inr miss ↦
        let (x, has, eq) = choose_hits show n ms (ground (arith, h, miss)) in
        (x, there m ms has, rw (choose, miss) eq)
    | inl hit ↦ elim (lt_or_le n (weighted m)) [
      | inl low ↦ (m, here ms hit, ground (arith, hit, low))
      | inr high ↦
          let (x, has, eq) = choose_hits show (n - weighted m) ms (ground (arith, h, hit, high)) in
          (x, there m ms has, ground (arith, hit, high, eq))
    ]
  ]

  -- Of the draws below the total, each message that passes has a run of its own, as long as its
  -- weight, which begins after the weights of those before it.
  pub choose_run :
      (show : Message → Text) (n : ℕ) (before after : List Message) (m : Message)
      → ok m ≡ true
      → total ok before ≤ n
      → n < total ok before + weighted m
      → choose ok show n (before ++ m ∷ after) ≡ show m
  unfolding total choose
  choose_run show n [] after m h low high = ground (arith, h, high)
  choose_run show n (x ∷ before) after m h low high = elim (Bool-cases (ok x)) [
    | inr miss ↦
        rw (choose, miss)
          (choose_run show n before after m h (ground (arith, low, miss))
            (ground (arith, high, miss)))
    | inl hit ↦
        let next =
          choose_run show (n - weighted x) before after m h (ground (arith, low, hit))
            (ground (arith, low, high, hit)) in
        ground (arith, hit, low, next)
  ]

-- The messages of a list.
abbrev pub Among : Message → List Message → Type 0
Among m [] = ⊥
Among m (x ∷ xs) = (x ≡ m) ⊎ Among m xs

-- Some line of the list fits.
abbrev pub CanShow : Text → List Text → Vars → List Message → Type 0
CanShow platform exclude vars ms = (m : Message) × Among m ms × Fits platform exclude vars m

-- A line of the list that fits, with its variables substituted.
pub record Shown (platform : Text) (exclude : List Text) (vars : Vars) (ms : List Message)
    (line : Text) : Type 0 where
  pub message : Message
  pub listed : Among message ms
  pub fits : Fits platform exclude vars message
  pub line_is : line ≡ expand vars message.text

Has-Among :
    (ok : Message → Bool) (m : Message) (ms : List Message)
    → Has ok m ms
    → Among m ms × (ok m ≡ true)
Has-Among ok m ms (here rest h) = (inl refl, h)
Has-Among ok m ms (there x rest h) = let (among, fine) = Has-Among ok m rest h in (inr among, fine)

weight_of_pos : (w : ℤ) → 0 < weight_of w
weight_of_pos (pos n) = ground arith
weight_of_pos (negsuc n) = omega arith

weighted_pos : (m : Message) → 0 < weighted m
weighted_pos m = weight_of_pos m.weight

total_some :
    (ok : Message → Bool) (m : Message) (ms : List Message)
    → Among m ms
    → ok m ≡ true
    → 0 < total ok ms
unfolding total
total_some ok m [] h fine = elim h [ ]
total_some ok m (x ∷ ms) (inl e) fine =
    let own : ok x ≡ true = ap ok e ∙ fine in ground (arith, own, weighted_pos x)
total_some ok m (x ∷ ms) (inr h) fine = omega (arith, total_some ok m ms h fine)

total-CanShow :
    (platform : Text) (exclude : List Text) (vars : Vars) (ms : List Message)
    → total (eligible platform exclude vars) ms ≢ 0
    → CanShow platform exclude vars ms
total-CanShow platform exclude vars ms h =
    let ok = eligible platform exclude vars in
    let (m, has, e) = choose_hits ok (λ m. m.text) 0 ms (omega (arith, h)) in
    let (among, fine) = Has-Among ok m ms has in
    (m, among, eligible-Fits platform exclude vars m fine)

CanShow-total :
    (platform : Text) (exclude : List Text) (vars : Vars) (ms : List Message)
    → CanShow platform exclude vars ms
    → total (eligible platform exclude vars) ms ≢ 0
CanShow-total platform exclude vars ms (m, among, fits) e =
    let some_left =
      total_some (eligible platform exclude vars) m ms among
        (Fits-eligible platform exclude vars m fits) in
    omega (arith, some_left, e)

zero_or : (n : ℕ) → (n ≡ 0) ⊎ (n ≢ 0)
zero_or zero = inl refl
zero_or (suc n) = inr (λ e. omega (arith, e))

pub CanShow-or :
    (platform : Text) (exclude : List Text) (vars : Vars) (ms : List Message)
    → CanShow platform exclude vars ms ⊎ (¬ CanShow platform exclude vars ms)
CanShow-or platform exclude vars ms = elim (zero_or (total (eligible platform exclude vars) ms)) [
  | inl e ↦ inr (λ h. CanShow-total platform exclude vars ms h e)
  | inr h ↦ inl (total-CanShow platform exclude vars ms h)
]

none_left :
    (platform : Text) (exclude : List Text) (vars : Vars) (ms : List Message)
    → ¬ CanShow platform exclude vars ms
    → total (eligible platform exclude vars) ms ≡ 0
none_left platform exclude vars ms h = elim (zero_or (total (eligible platform exclude vars) ms)) [
  | inl e ↦ e
  | inr k ↦ absurd (h (total-CanShow platform exclude vars ms k))
]

-- What fits with commands excluded fits without.
CanShow-relaxed :
    (platform : Text) (exclude : List Text) (vars : Vars) (ms : List Message)
    → CanShow platform exclude vars ms
    → CanShow platform [] vars ms
CanShow-relaxed platform exclude vars ms (m, among, f) =
    (m, among, record { applies = f.applies; apart = λ c h k. k; filled = f.filled })

pick_once-Shown :
    (draw : ℕ → ℕ) (platform : Text) (ms : List Message) (exclude : List Text) (vars : Vars)
    → ((n : ℕ) → 0 < n → draw n < n)
    → total (eligible platform exclude vars) ms ≢ 0
    → Shown platform exclude vars ms (pick_once draw platform ms exclude vars)
unfolding pick_once
pick_once-Shown draw platform ms exclude vars low some_left =
    let sum = total (eligible platform exclude vars) ms in
    let (m, has, eq) =
      choose_hits (eligible platform exclude vars) (λ m. expand vars m.text) (draw sum) ms
        (low sum (omega (arith, some_left))) in
    let (among, fine) = Has-Among (eligible platform exclude vars) m ms has in
    record {
      message = m;
      listed = among;
      fits = eligible-Fits platform exclude vars m fine;
      line_is = ground (arith, some_left, eq);
    }

pick_strict :
    (draw : ℕ → ℕ) (platform : Text) (ms : List Message) (exclude : List Text) (vars : Vars)
    → total (eligible platform exclude vars) ms ≢ 0
    → pick draw platform ms exclude vars ≡ pick_once draw platform ms exclude vars
unfolding pick
pick_strict draw platform ms exclude vars h = ground (arith, h)

pick_relaxed :
    (draw : ℕ → ℕ) (platform : Text) (ms : List Message) (exclude : List Text) (vars : Vars)
    → total (eligible platform exclude vars) ms ≡ 0
    → total (eligible platform [] vars) ms ≢ 0
    → pick draw platform ms exclude vars ≡ pick_once draw platform ms [] vars
unfolding pick
pick_relaxed draw platform ms [] vars h k = absurd (k h)
pick_relaxed draw platform ms (e ∷ es) vars h k = ground (arith, h)

pick_nothing :
    (draw : ℕ → ℕ) (platform : Text) (ms : List Message) (exclude : List Text) (vars : Vars)
    → total (eligible platform exclude vars) ms ≡ 0
    → total (eligible platform [] vars) ms ≡ 0
    → pick draw platform ms exclude vars ≡ []
unfolding pick pick_once
pick_nothing draw platform ms exclude vars h k = ground (arith, h, k)

-- For a source of numbers that answers below what it is asked for, `Pick` shows a line of the pool
-- with its variables substituted, which names the platform or none, has a value for each variable, and
-- has none of the excluded commands, whenever some line of the pool does all that; it shows a line
-- of the pool that does the rest, whatever its commands, when none does and some line does that, and
-- nothing when no line does.
pub pick-Shown :
    (draw : ℕ → ℕ) (platform : Text) (ms : List Message) (exclude : List Text) (vars : Vars)
    → ((n : ℕ) → 0 < n → draw n < n)
    → let line = pick draw platform ms exclude vars in
      (CanShow platform exclude vars ms → Shown platform exclude vars ms line)
      × (¬ CanShow platform exclude vars ms
          → CanShow platform [] vars ms
          → Shown platform [] vars ms line)
      × (¬ CanShow platform [] vars ms → line ≡ [])
pick-Shown draw platform ms exclude vars low = (
  λ h.
      let some_left = CanShow-total platform exclude vars ms h in
      rw (pick_strict draw platform ms exclude vars some_left)
        (pick_once-Shown draw platform ms exclude vars low some_left),
  λ h k.
      let some_left = CanShow-total platform [] vars ms k in
      rw
        (pick_relaxed draw platform ms exclude vars (none_left platform exclude vars ms h)
          some_left)
        (pick_once-Shown draw platform ms [] vars low some_left),
  λ h.
      pick_nothing draw platform ms exclude vars
        (none_left platform exclude vars ms (λ k. h (CanShow-relaxed platform exclude vars ms k)))
        (none_left platform [] vars ms h),
)
