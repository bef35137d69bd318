-- ===== src/Examples/Laws.antt =====
-- What follows from the exit of a program (Examples.antt) for its parts, and how many transactions
-- it sends at most.
use near_fetch.Prelude.{ℕ, ◌+◌, ◌≤◌, ◌≡◌, refl, ap, arith}
use near_fetch.Near.{Near, Except, value, error}
use near_fetch.Error.{Result, ok, err, panic}
use near_fetch.Effects.{Net, State, M}
use near_fetch.Effects.Sends as Sends
use near_fetch.Effects.Sends.{sends}
use near_fetch.Query.{ProcessQuery, Query, into_future}
use near_fetch.Query.Answered.{Answered, into_future-Answered}
use near_fetch.Examples.{
  Outside, Failure, Exit, done, failed, panicked, exit_of, exit_of_parse, Main, follow, ◌>>=◌,
  await, parse,
}

module _ ⦃near : Near⦄ ⦃net : Net⦄ ⦃outside : Outside⦄ where
  module _ {A B : Type 0} (f : A → Main B) where
    follow-eq-done :
        (p : Exit A × State) (b : B) (t : State)
        → follow f p ≡ (done b, t)
        → (a : A) × (u : State) × (p ≡ (done a, u)) × (f a u ≡ (done b, t))
    follow-eq-done (done a, u) b t e = (a, u, refl, e)
    follow-eq-done (failed x, u) b t e = absurd (ground (arith, ap (λ (p : Exit B × State). p.0) e))
    follow-eq-done (panicked, u) b t e = absurd (ground (arith, ap (λ (p : Exit B × State). p.0) e))

    -- A program that ends well has a first part that does.
    pub >>=-eq-done :
        (m : Main A) (s : State) {b : B} {t : State}
        → (m >>= f) s ≡ (done b, t)
        → (a : A) × (u : State) × (m s ≡ (done a, u)) × (f a u ≡ (done b, t))
    >>=-eq-done m s {b} {t} e = follow-eq-done (m s) b t e

    follow-AtMost :
        (n k : ℕ) (p : Exit A × State)
        → sends p.1.trace ≤ n
        → ((a : A) (u : State) → sends (f a u).1.trace ≤ sends u.trace + k)
        → sends (follow f p).1.trace ≤ n + k
    follow-AtMost n k (done a, u) h rest = omega (arith, rest a u)
    follow-AtMost n k (failed x, u) h rest = omega arith
    follow-AtMost n k (panicked, u) h rest = omega arith

  exit_of-eq-done : {A : Type 0} (r : Result A) (a : A) → exit_of r ≡ done a → r ≡ ok a
  exit_of-eq-done (ok b) a e = ground arith
  exit_of-eq-done (err x) a e = absurd (ground arith)
  exit_of-eq-done panic a e = absurd (ground arith)

  pub await-eq-done :
      {A : Type 0} (m : M A) (s : State) {a : A} {t : State}
      → await m s ≡ (done a, t)
      → m s ≡ (ok a, t)
  await-eq-done {A} m s {a} {t} e = λ i. (
    exit_of-eq-done (m s).0 a (ap (λ (p : Exit A × State). p.0) e) i,
    ap (λ (p : Exit A × State). p.1) e i,
  )

  exit_of_parse-eq-done :
      {A E : Type 0} (f : E → Failure) (r : Except E A) (a : A)
      → exit_of_parse f r ≡ done a
      → r ≡ value a
  exit_of_parse-eq-done f (value b) a e = ground arith
  exit_of_parse-eq-done f (error x) a e = absurd (ground arith)

  pub parse-eq-done :
      {A E : Type 0} (f : E → Failure) (r : Except E A) (s : State) {a : A} {t : State}
      → parse f r s ≡ (done a, t)
      → (r ≡ value a) × (s ≡ t)
  parse-eq-done {A} f r s {a} e = (
    exit_of_parse-eq-done f r a (ap (λ (p : Exit A × State). p.0) e),
    ap (λ (p : Exit A × State). p.1) e,
  )

  -- A program that ends well after a query has the query's value.
  pub query-eq-done :
      {T R B : Type 0} (p : ProcessQuery T R) (q : Query T) (f : R → Main B) (s : State) {b : B}
      {t : State}
      → (await (into_future ⦃p = p⦄ q) >>= f) s ≡ (done b, t)
      → (r : R) × (u : State) × Answered p q s r u × (f r u ≡ (done b, t))
  query-eq-done p q f s e =
      let (r, u, returned, rest) = >>=-eq-done f (await (into_future ⦃p = p⦄ q)) s e in
      (
        r,
        u,
        into_future-Answered p q s u r (await-eq-done (into_future ⦃p = p⦄ q) s returned),
        rest,
      )

  -- From every state, the program sends `n` transactions at most.
  abbrev pub AtMost : {A : Type 0} → ℕ → Main A → Type 0
  AtMost n m = (s : State) → sends (m s).1.trace ≤ sends s.trace + n

  pub >>=-AtMost :
      {A B : Type 0} (n k : ℕ) (m : Main A) (f : A → Main B)
      → AtMost n m
      → ((a : A) → AtMost k (f a))
      → AtMost (n + k) (m >>= f)
  >>=-AtMost n k m f first rest s =
      omega (arith, follow-AtMost f (sends s.trace + n) k (m s) (first s) rest)

  pub await-AtMost : {A : Type 0} (n : ℕ) (m : M A) → Sends.AtMost n m → AtMost n (await m)
  await-AtMost n m bound s = bound s

  -- what follows a `text.parse()?`
  pub parse-AtMost :
      {A B E : Type 0} (k : ℕ) (f : E → Failure) (r : Except E A) (g : A → Main B)
      → ((a : A) → AtMost k (g a))
      → AtMost k (parse f r >>= g)
  parse-AtMost k f r g rest s =
      omega (arith, >>=-AtMost 0 k (parse f r) g (λ t. omega arith) rest s)
