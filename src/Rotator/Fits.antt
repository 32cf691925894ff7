-- ===== src/Rotator/Fits.antt =====
-- Which lines a corner may show, said without the tests of the code.
use tripbot.Base.{
  Text, same_text, same_text_eq, same_text_self, OneOf, ◌≡◌, ◌≢◌, ◌⊎◌, refl, sym, ap, inl, inr,
  Bool, true, false, not, ◌&&◌, List, [], ◌∷◌, arith, Bool-cases, ◌∙◌,
}
use tripbot.Rotator.{
  Vars, Message, is_empty, contains, value, all_known, commands_in, variables_in, resolvable,
  applies_to, any_in, shares_command, eligible,
}

-- The line names the platform or none, none of its commands is excluded, and each of its variables
-- has a value.
pub record Fits (platform : Text) (exclude : List Text) (vars : Vars) (m : Message) : Type 0 where
  pub applies : (m.platforms ≡ []) ⊎ OneOf platform m.platforms
  pub apart : (c : Text) → OneOf c (commands_in m.text) → ¬ OneOf c exclude
  pub filled : (v : Text) → OneOf v (variables_in m.text) → value vars v ≢ []

contains-OneOf : (t : Text) (us : List Text) → contains t us ≡ true → OneOf t us
contains-OneOf t [] h = ground (arith, h)
contains-OneOf t (u ∷ us) h = elim (Bool-cases (same_text t u)) [
  | inl same ↦ inl (sym (same_text_eq t u same))
  | inr other ↦ inr (contains-OneOf t us (ground (arith, h, other)))
]

OneOf-contains : (t : Text) (us : List Text) → OneOf t us → contains t us ≡ true
OneOf-contains t [] h = elim h [ ]
OneOf-contains t (u ∷ us) (inl e) =
    let same : same_text t u ≡ true = rw e (same_text_self t) in ground (arith, same)
OneOf-contains t (u ∷ us) (inr h) = ground (arith, OneOf-contains t us h)

any_in-apart :
    (cs exclude : List Text)
    → any_in cs exclude ≡ false
    → (c : Text) → OneOf c cs
    → ¬ OneOf c exclude
any_in-apart [] exclude h c m k = elim m [ ]
any_in-apart (x ∷ cs) exclude h c (inl e) k =
    let hit : contains x exclude ≡ true = rw e (OneOf-contains c exclude k) in
    ground (arith, h, hit)
any_in-apart (x ∷ cs) exclude h c (inr m) k = any_in-apart cs exclude (ground (arith, h)) c m k

apart-any_in :
    (cs exclude : List Text)
    → ((c : Text) → OneOf c cs → ¬ OneOf c exclude)
    → any_in cs exclude ≡ false
apart-any_in [] exclude h = refl
apart-any_in (x ∷ cs) exclude h = elim (Bool-cases (contains x exclude)) [
  | inl hit ↦ absurd (h x (inl refl) (contains-OneOf x exclude hit))
  | inr miss ↦ ground (arith, miss, apart-any_in cs exclude (λ c m. h c (inr m)))
]

-- Nothing is excluded.
any_in-nothing : (cs : List Text) → any_in cs [] ≡ false
any_in-nothing [] = refl
any_in-nothing (x ∷ cs) = any_in-nothing cs

shares-apart :
    (m : Message) (exclude : List Text)
    → shares_command exclude m ≡ any_in (commands_in m.text) exclude
unfolding shares_command
shares-apart m [] = sym (any_in-nothing (commands_in m.text))
shares-apart m (e ∷ es) = refl

is_empty_iff : (t : Text) → is_empty t ≡ false → t ≢ []
is_empty_iff [] h = ground (arith, h)
is_empty_iff (c ∷ cs) h = λ e. ground (arith, e)

empty_false : (t : Text) → t ≢ [] → is_empty t ≡ false
empty_false [] h = absurd (h refl)
empty_false (c ∷ cs) h = refl

all_known-filled :
    (vars : Vars) (vs : List Text)
    → all_known vars vs ≡ true
    → (v : Text) → OneOf v vs
    → value vars v ≢ []
all_known-filled vars [] h v m = elim m [ ]
all_known-filled vars (x ∷ vs) h v (inl e) =
    rw (← e) (is_empty_iff (value vars x) (ground (arith, h)))
all_known-filled vars (x ∷ vs) h v (inr m) = all_known-filled vars vs (ground (arith, h)) v m

filled-all_known :
    (vars : Vars) (vs : List Text)
    → ((v : Text) → OneOf v vs → value vars v ≢ [])
    → all_known vars vs ≡ true
filled-all_known vars [] h = refl
filled-all_known vars (x ∷ vs) h = ground (
  arith,
  empty_false (value vars x) (h x (inl refl)),
  filled-all_known vars vs (λ v m. h v (inr m)),
)

is_empty-nil : (ts : List Text) → is_empty ts ≡ true → ts ≡ []
is_empty-nil [] h = refl
is_empty-nil (t ∷ ts) h = ground (arith, h)

all_three : (a b c : Bool) → (a && not b && c) ≡ true → (a ≡ true) × (b ≡ false) × (c ≡ true)
all_three a b c h = (ground (arith, h), ground (arith, h), ground (arith, h))

pub eligible-Fits :
    (platform : Text) (exclude : List Text) (vars : Vars) (m : Message)
    → eligible platform exclude vars m ≡ true
    → Fits platform exclude vars m
unfolding eligible resolvable
eligible-Fits platform exclude vars m h =
    let (on, other, known) =
      all_three (applies_to platform m) (shares_command exclude m) (resolvable vars m.text) h in
    record {
      applies = elim (Bool-cases (is_empty m.platforms)) [
        | inl bare ↦ inl (is_empty-nil m.platforms bare)
        | inr some_on ↦ inr (contains-OneOf platform m.platforms (ground (arith, on, some_on)))
      ];
      apart = any_in-apart (commands_in m.text) exclude (sym (shares-apart m exclude) ∙ other);
      filled = all_known-filled vars (variables_in m.text) known;
    }

pub Fits-eligible :
    (platform : Text) (exclude : List Text) (vars : Vars) (m : Message)
    → Fits platform exclude vars m
    → eligible platform exclude vars m ≡ true
unfolding eligible resolvable
Fits-eligible platform exclude vars m f =
    let other = shares-apart m exclude ∙ apart-any_in (commands_in m.text) exclude f.apart in
    let known = filled-all_known vars (variables_in m.text) f.filled in
    elim f.applies [
      | inl bare ↦
          let on : is_empty m.platforms ≡ true = ap is_empty bare in
          ground (arith, on, other, known)
      | inr named ↦
          let on = OneOf-contains platform m.platforms named in ground (arith, on, other, known)
    ]
