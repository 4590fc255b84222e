-- ===== src/Run.antt =====
-- Code that may let an exception escape. No handler of the services is called under a `try`, so
-- an exception that escapes from one unwinds `io_context::run` and ends the process.
use pollbook_server.Prelude.{
  ◌≡◌, refl, ap, subst, Bool, true, false, if◌then◌else◌, Option, none, some,
}

pub data Run {ℓ} (A : Type ℓ) : Type ℓ where
  done : A → Run A
  throws : Run A

infixl 5 ◌>>=◌
abbrev pub ◌>>=◌ {ℓ κ} : {A : Type ℓ} {B : Type κ} → Run A → (A → Run B) → Run B
done a >>= f = f a
throws >>= f = throws

-- A call that throws where `none` stands for its failure.
abbrev pub or_throw {ℓ} : {A : Type ℓ} → Option A → Run A
or_throw none = throws
or_throw (some a) = done a

pub >>=-eq-done {ℓ κ} :
    {A : Type ℓ} {B : Type κ} (m : Run A) (f : A → Run B) {b : B}
    → (m >>= f) ≡ done b
    → (a : A) × (m ≡ done a) × (f a ≡ done b)
>>=-eq-done (done a) f h = (a, refl, h)
>>=-eq-done throws f h = cc

-- What a result satisfies, if there is one.
abbrev pub Ensures {ℓ κ} : {A : Type ℓ} → (A → Type κ) → Run A → Type κ
Ensures P (done a) = P a
Ensures P throws = Unit

pub Ensures-bind {ℓ κ μ} :
    {A : Type ℓ} {B : Type κ} (P : B → Type μ) (m : Run A) (f : A → Run B)
    → ((a : A) → m ≡ done a → Ensures P (f a))
    → Ensures P (m >>= f)
Ensures-bind P (done a) f k = k a refl
Ensures-bind P throws f k = tt

pub Ensures-eq {ℓ κ} :
    {A : Type ℓ} (P : A → Type κ) (m : Run A) (a : A) → m ≡ done a → Ensures P m → P a
Ensures-eq P m a e h = subst (Ensures P) e h

pub Ensures-if {ℓ κ} :
    {A : Type ℓ} (P : A → Type κ) (b : Bool) (m n : Run A)
    → (b ≡ true → Ensures P m)
    → (b ≡ false → Ensures P n)
    → Ensures P (if b then m else n)
Ensures-if P true m n km kn = km refl
Ensures-if P false m n km kn = kn refl

-- A consequence of what a result satisfies.
pub Ensures-map {ℓ κ μ} :
    {A : Type ℓ} (P : A → Type κ) (Q : A → Type μ) (m : Run A)
    → ((a : A) → P a → Q a)
    → Ensures P m
    → Ensures Q m
Ensures-map P Q (done a) f h = f a h
Ensures-map P Q throws f h = tt

abbrev pub result_or {ℓ} : {A : Type ℓ} → A → Run A → A
result_or d (done a) = a
result_or d throws = d

pub done-injective {ℓ} : {A : Type ℓ} (a b : A) → done a ≡ done b → a ≡ b
done-injective a b h = ap (result_or a) h

pub or_throw-eq-done {ℓ} : {A : Type ℓ} (o : Option A) (a : A) → or_throw o ≡ done a → o ≡ some a
or_throw-eq-done none a h = cc
or_throw-eq-done (some b) a h = ap some (done-injective b a h)

pub Ensures-always {ℓ κ} : {A : Type ℓ} (P : A → Type κ) (m : Run A) → ((a : A) → P a) → Ensures P m
Ensures-always P (done a) h = h a
Ensures-always P throws h = tt
