-- ===== src/Examples.antt =====
-- examples/src: the programs that use the crate. A program ends with `anyhow::Result`; what it
-- prints is left out.
pub mod Laws
pub mod VariousViews
pub mod SocialCall
use near_fetch.Prelude.{ℕ, String, List}
use near_fetch.Near.{Near, Except, value, error}
use near_fetch.Error.{Error, Result, ok, err, panic}
use near_fetch.Effects.{Net, State, M}

-- `AccountId::from_str` and `SecretKey::from_str`, `serde_json::Value`, `serde_json::to_vec` on it,
-- and the text that `format!("{my_id}/profile/**")` makes of a name.
pub record Outside ⦃near : Near⦄ : Type 1 where
  pub AccountError : Type 0
  pub KeyError : Type 0
  pub parse_account : String → Except AccountError near.AccountId
  pub parse_key : String → Except KeyError near.SecretKey
  pub Json : Type 0
  pub string : String → Json
  pub array : List Json → Json
  pub object : List (String × Json) → Json
  pub to_vec : Json → Except near.SerdeError (List ℕ)
  pub profile_of : String → String

module _ ⦃near : Near⦄ ⦃outside : Outside⦄ where
  -- what `anyhow::Error` is made of
  pub data Failure : Type 0 where
    fetch : Error → Failure
    account : outside.AccountError → Failure
    key : outside.KeyError → Failure

  pub data Exit (A : Type 0) : Type 0 where
    done : A → Exit A
    failed : Failure → Exit A
    panicked : Exit A

  abbrev pub exit_of : {A : Type 0} → Result A → Exit A
  exit_of (ok a) = done a
  exit_of (err e) = failed (fetch e)
  exit_of panic = panicked

  abbrev pub exit_of_parse : {A E : Type 0} → (E → Failure) → Except E A → Exit A
  exit_of_parse f (value a) = done a
  exit_of_parse f (error e) = failed (f e)

  module _ ⦃net : Net⦄ where
    abbrev pub Main : Type 0 → Type 0
    Main A = State → Exit A × State

    abbrev pub finish : {A : Type 0} → A → Main A
    finish a s = (done a, s)

    -- what follows an exit
    abbrev pub follow : {A B : Type 0} → (A → Main B) → Exit A × State → Exit B × State
    follow f (done a, s) = f a s
    follow f (failed e, s) = (failed e, s)
    follow f (panicked, s) = (panicked, s)

    infixl 5 ◌>>=◌
    abbrev pub ◌>>=◌ : {A B : Type 0} → Main A → (A → Main B) → Main B
    ◌>>=◌ m f s = follow f (m s)

    -- `m.await?`
    abbrev pub await : {A : Type 0} → M A → Main A
    await m s = let (r, t) = m s in (exit_of r, t)

    -- `text.parse()?`
    abbrev pub parse : {A E : Type 0} → (E → Failure) → Except E A → Main A
    parse f r s = (exit_of_parse f r, s)
