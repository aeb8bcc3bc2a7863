-- ===== src/Config/Laws.antt =====
-- What the environment does to the configuration (pkg/config/config.go).
use pdu_session_sim.Common.{
  ℕ, zero, suc, ◌^◌, ◌+◌, ◌/◌, ◌%◌, ◌<◌, ◌≡◌, ◌≢◌, refl, [], ◌∷◌, false, ℤ, pos, some, Text, text,
  text_eq, Result, ok, Result-cases, ◌==◌, ==_iff, arith, inl, inr, nat_eq,
}
use pdu_session_sim.Config.Atoi.{atoi, digits_value, unsigned, in_range}
use pdu_session_sim.Config.{
  Config, Environment, File, not_found, unreadable, contents, default_config, override_from_env,
  override, override_int, load,
}
use pdu_session_sim.Decimal.{decimal, digits_before}
use pdu_session_sim.Decimal.Laws.{AreDigits, decimal-AreDigits, digits_value-decimal}

atoi_of_digits :
    (s : Text) (n : ℕ) → AreDigits s → unsigned s ≡ some n → n < 2 ^ 63 → atoi s ≡ ok (pos n)
unfolding atoi in_range unsigned
atoi_of_digits [] n digits value small = absurd (ground (arith, value))
atoi_of_digits (c ∷ s) n digits value small =
    let minus : (c == b'-') ≡ false = ground (arith, ==_iff c b'-', digits) in
    let plus : (c == b'+') ≡ false = ground (arith, ==_iff c b'+', digits) in
    ground (arith, minus, plus, value)

digits_before-ne-nil : (rounds n c : ℕ) (rest : Text) → digits_before rounds n (c ∷ rest) ≢ []
unfolding digits_before
digits_before-ne-nil zero n c rest e = ground (arith, e)
digits_before-ne-nil (suc rounds) n c rest e =
    ground (arith, digits_before-ne-nil rounds (n / 10) (48 + n % 10) (c ∷ rest))

decimal-ne-nil : (n : ℕ) → decimal n ≢ []
unfolding decimal digits_before
decimal-ne-nil n e = ground (arith, digits_before-ne-nil n (n / 10) (48 + n % 10) [])

unsigned_of_digits_value :
    (s : Text) (n : ℕ) → s ≢ [] → digits_value 0 s ≡ some n → unsigned s ≡ some n
unfolding unsigned
unsigned_of_digits_value [] n filled value = absurd (filled refl)
unsigned_of_digits_value (c ∷ s) n filled value = value

-- What `%d` prints of a number below 2^63, `strconv.Atoi` reads back.
pub atoi-decimal : (n : ℕ) → n < 2 ^ 63 → atoi (decimal n) ≡ ok (pos n)
atoi-decimal n small =
    atoi_of_digits (decimal n) n (decimal-AreDigits n)
      (unsigned_of_digits_value (decimal n) n (decimal-ne-nil n) (digits_value-decimal n)) small

override_int-decimal :
    (v : Text) (n : ℕ) (current : ℤ) → n < 2 ^ 63 → v ≡ decimal n → override_int v current ≡ pos n
override_int-decimal v n current small e =
    ground (arith, e, atoi-decimal n small, decimal-ne-nil n, ==_iff v [])

-- What is loaded is the environment over the defaults or over what the file makes of them.
load-override :
    (unmarshal : Text → Config → Result Config) (env : Environment) (file : File) (cfg : Config)
    → load unmarshal env file ≡ ok cfg
    → (base : Config) × (cfg ≡ override_from_env env base)
unfolding load
load-override unmarshal env not_found cfg e = (default_config, ground (arith, e))
load-override unmarshal env (unreadable x) cfg e = absurd (ground (arith, e))
load-override unmarshal env (contents yaml) cfg e =
    elim (Result-cases (unmarshal yaml default_config)) [
      | inl (x, failed) ↦ absurd (ground (arith, failed))
      | inr (base, parsed) ↦ (base, ground (arith, parsed))
    ]

module _ (unmarshal : Text → Config → Result Config) (env : Environment) (file : File) where
  queue_size-override :
      (base : Config)
      → (override_from_env env base).smf.queue_size
        ≡ override_int (env (text "QUEUE_SIZE")) base.smf.queue_size
  unfolding override_from_env
  queue_size-override base = refl

  -- Where the configuration loads, QUEUE_SIZE in decimal, below 2^63, is the size of the job queue,
  -- whatever the file says.
  pub load-queue_size :
      (n : ℕ) (cfg : Config)
      → n < 2 ^ 63
      → env (text "QUEUE_SIZE") ≡ decimal n
      → load unmarshal env file ≡ ok cfg
      → cfg.smf.queue_size ≡ pos n
  load-queue_size n cfg small set loaded =
      let (base, e) = load-override unmarshal env file cfg loaded in
      ground (
        arith,
        e,
        queue_size-override base,
        override_int-decimal (env (text "QUEUE_SIZE")) n base.smf.queue_size small set,
      )

  max_workers-override :
      (base : Config)
      → (override_from_env env base).smf.max_workers
        ≡ override_int (env (text "MAX_WORKERS")) base.smf.max_workers
  unfolding override_from_env
  max_workers-override base = refl

  -- The same of MAX_WORKERS and the number of workers.
  pub load-max_workers :
      (n : ℕ) (cfg : Config)
      → n < 2 ^ 63
      → env (text "MAX_WORKERS") ≡ decimal n
      → load unmarshal env file ≡ ok cfg
      → cfg.smf.max_workers ≡ pos n
  load-max_workers n cfg small set loaded =
      let (base, e) = load-override unmarshal env file cfg loaded in
      ground (
        arith,
        e,
        max_workers-override base,
        override_int-decimal (env (text "MAX_WORKERS")) n base.smf.max_workers small set,
      )

  database_url-override :
      (base : Config)
      → (override_from_env env base).smf.database_url
        ≡ override (env (text "DATABASE_URL")) base.smf.database_url
  unfolding override_from_env
  database_url-override base = refl

  -- Where the configuration loads, DATABASE_URL names the SMF's database if it is not empty.
  pub load-database_url :
      (cfg : Config)
      → env (text "DATABASE_URL") ≢ []
      → load unmarshal env file ≡ ok cfg
      → cfg.smf.database_url ≡ env (text "DATABASE_URL")
  load-database_url cfg set loaded =
      let (base, e) = load-override unmarshal env file cfg loaded in
      ground (arith, e, set, database_url-override base, ==_iff (env (text "DATABASE_URL")) [])
