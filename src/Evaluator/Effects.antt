-- ===== src/Evaluator/Effects.antt =====
-- What can be read off the statements of a run of the evaluator in internal/evaluator/service.go.
use dbs_monitor.Prelude.{
  append_nil, append_assoc, ◌≡◌, refl, sym, ap, ◌∙◌, Bool, true, false, Option, none, some, List,
  [], ◌∷◌, ◌++◌, if◌then◌else◌, arith, Bool-cases, inl, inr,
}
use dbs_monitor.Evaluator.Run.{
  Run, Effect, Answer, ok, err, Error, pure, or_fail, returning, exec, ◌>>=◌, for_each,
}

abbrev pub is_ok : {A : Type 0} → Answer A → Bool
is_ok (ok a) = true
is_ok (err e) = false

module _ {A B : Type 0} where
  -- What `read` gives for each element, in order.
  unfoldable pub pick : (A → List B) → List A → List B
  pick read [] = []
  pick read (x ∷ xs) = read x ++ pick read xs

  pub pick-append :
      (read : A → List B) (xs ys : List A) → pick read (xs ++ ys) ≡ pick read xs ++ pick read ys
  unfolding pick
  pick-append read [] ys = refl
  pick-append read (x ∷ xs) ys =
      ap (λ l. read x ++ l) (pick-append read xs ys)
      ∙ sym (append_assoc (read x) (pick read xs) (pick read ys))

module _ {B : Type 0} where
  pub pick-cong :
      {A : Type 0} (does does' : A → List B) (l : List A)
      → ((x : A) → does x ≡ does' x)
      → pick does l ≡ pick does' l
  unfolding pick
  pick-cong does does' [] h = refl
  pick-cong does does' (x ∷ l) h = rw (h x) (ap (λ m. does' x ++ m) (pick-cong does does' l h))

  -- A loop whose body is seen to do nothing.
  pub pick-nothing :
      {A : Type 0} (does : A → List B) (l : List A) → ((x : A) → does x ≡ []) → pick does l ≡ []
  unfolding pick
  pick-nothing does [] h = refl
  pick-nothing does (x ∷ l) h = rw (h x) (pick-nothing does l h)

module _ {F B : Type 0} (read : Effect F → List B) where
  -- What is read off the statements of a run.
  abbrev pub seen : {A : Type 0} → Run F A → List B
  seen m = pick read m.0

  -- A run that comes back with no error is seen to do this.
  abbrev pub Shows : {A : Type 0} → Run F A → List B → Type 0
  Shows m l = is_ok m.1 ≡ true → seen m ≡ l

  pub show_as : {A : Type 0} (m : Run F A) {l l' : List B} → l ≡ l' → Shows m l → Shows m l'
  show_as m e s o = s o ∙ e

  pub pure-Shows : {A : Type 0} (a : A) → Shows (pure a) []
  unfolding pick
  pure-Shows a o = refl

  pub or_fail-Shows : {A : Type 0} (e : Error) (o : Option A) → Shows (or_fail e o) []
  unfolding pick
  or_fail-Shows e none o = refl
  or_fail-Shows e (some a) o = refl

  pub returning-Shows :
      {A : Type 0} (effect : Effect F) (o : Option A) → Shows (returning effect o) (read effect)
  unfolding pick
  returning-Shows effect none o = absurd (ground arith)
  returning-Shows effect (some a) o = append_nil (read effect)

  pub exec-Shows :
      (executed : Effect F → Bool) (effect : Effect F) → Shows (exec executed effect) (read effect)
  unfolding pick
  exec-Shows executed effect o = elim (Bool-cases (executed effect)) [
    | inl taken ↦ rw taken (append_nil (read effect))
    | inr refused ↦ absurd (ground arith)
  ]

  pub bind-Shows :
      {A C : Type 0} (m : Run F A) (k : A → Run F C) (l later : List B)
      → Shows m l
      → ((a : A) → m.1 ≡ ok a → Shows (k a) later)
      → Shows (m >>= k) (l ++ later)
  unfolding ◌>>=◌
  bind-Shows (effects, ok a) k l later first rest o =
      pick-append read effects (k a).0 ∙ rw (first refl, rest a refl o) refl
  bind-Shows (effects, err e) k l later first rest o = absurd (ground arith)

  pub choose-Shows :
      {A : Type 0} (b : Bool) (e e' : Effect F) (o : Option A)
      → Shows (if b then returning e o else returning e' o) (read (if b then e else e'))
  choose-Shows true e e' o = returning-Shows e o
  choose-Shows false e e' o = returning-Shows e' o

  pub optional-Shows :
      (b : Bool) (m : Run F Unit) → Shows m [] → Shows (if b then m else pure tt) []
  optional-Shows true m h = h
  optional-Shows false m h = pure-Shows tt

  -- What a loop's body is seen to do, one after the other.
  pub for_each-Shows :
      {A : Type 0} (l : List A) (body : A → Run F Unit) (does : A → List B)
      → ((x : A) → Shows (body x) (does x))
      → Shows (for_each l body) (pick does l)
  unfolding for_each pick
  for_each-Shows [] body does h = pure-Shows tt
  for_each-Shows (x ∷ l) body does h =
      bind-Shows (body x) (λ _. for_each l body) (does x) (pick does l) (h x)
        (λ _ _. for_each-Shows l body does h)

module _ {F A C : Type 0} where
  -- After a part that changes nothing, the statements are those of the rest.
  pub bind-quiet :
      (m : Run F A) (k : A → Run F C)
      → m.0 ≡ []
      → is_ok (m >>= k).1 ≡ true
      → (a : A) × (m.1 ≡ ok a) × ((m >>= k).0 ≡ (k a).0) × (is_ok (k a).1 ≡ true)
  unfolding ◌>>=◌
  bind-quiet (effects, ok a) k quiet o = (a, refl, ap (λ l. l ++ (k a).0) quiet, o)
  bind-quiet (effects, err e) k quiet o = absurd (ground arith)

  pub quiet_bind :
      (m : Run F A) (k : A → Run F C) → m.0 ≡ [] → ((a : A) → (k a).0 ≡ []) → (m >>= k).0 ≡ []
  unfolding ◌>>=◌
  quiet_bind (effects, ok a) k quiet rest = rw (quiet, rest a) refl
  quiet_bind (effects, err e) k quiet rest = quiet

module _ {F A : Type 0} where
  pub or_fail-quiet : (e : Error) (o : Option A) → (or_fail {F = F} e o).0 ≡ []
  or_fail-quiet e none = refl
  or_fail-quiet e (some a) = refl

pub or_fail-some :
    (F : Type 0) {A : Type 0} (e : Error) (o : Option A) (a : A)
    → (or_fail {F = F} e o).1 ≡ ok a
    → o ≡ some a
or_fail-some F e none a h = absurd (ground arith)
or_fail-some F e (some b) a h = ground arith

pub exec-once :
    {F : Type 0} (executed : Effect F → Bool) (effect : Effect F)
    → is_ok (exec executed effect).1 ≡ true
    → (exec executed effect).0 ≡ effect ∷ []
exec-once executed effect o = elim (Bool-cases (executed effect)) [
  | inl taken ↦ rw taken refl
  | inr refused ↦ absurd (ground arith)
]
