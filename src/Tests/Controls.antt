-- ===== src/Tests/Controls.antt =====
-- The origin check, the notifications and the process lock on concrete inputs.
use binance_bot.Base.{
  ℕ, String, ◌≡◌, ◌≢◌, refl, true, false, Option, none, some, List, [], ◌∷◌, str_eq, str_mem,
  if◌then◌else◌,
}
use binance_bot.Base.Fixed.{ℤ, fixed_float}
use binance_bot.Security.{
  Url, PyText, local_clients, local_hosts, authority, trading_control_denial_reason,
}
use binance_bot.Security.Origin.{IsSameOrigin, trading_control_denial_reason-none}
use binance_bot.Notifier.{Sent, last_sent, send}
use binance_bot.Notifier.Cooldown.{send-cooldown}
use binance_bot.Lock.{LockOp, acquires, releases, lock_run, lock_run-exclusive}
use binance_bot.Tests.Data.{num, settings}

-- the texts of the example, which are lower case and have no blanks
abbrev local_url : String → Url
local_url scheme = record {
  scheme = scheme;
  username = none;
  password = none;
  path = "";
  query = "";
  fragment = "";
  hostname = some "localhost";
  port = some (some 8000);
}

abbrev texts : PyText
texts = record {
  urlsplit = λ v.
      if str_eq v "//localhost:8000"
      then some (local_url "")
      else if str_eq v "http://localhost:8000"
      then some (local_url "http")
      else none;
  lower = λ v. v;
  strip = λ v. v;
  rstrip_dots = λ v. v;
}

trading_control_denial_reason-none_example :
    (request : String × Option ℕ) × (str_mem "127.0.0.1" local_clients ≡ true)
    × (authority texts (some "localhost:8000") ≡ some request)
    × (str_mem request.0 local_hosts ≡ true)
    × (str_eq "same-origin" "cross-site" ≡ false)
    × ((text : String)
        → some "http://localhost:8000" ≡ some text
        → (u : Url) × (port : Option ℕ) × (texts.urlsplit text ≡ some u)
          × (u.port ≡ some port)
          × IsSameOrigin texts u port "http" request)
unfolding trading_control_denial_reason
trading_control_denial_reason-none_example =
    trading_control_denial_reason-none texts (some "127.0.0.1") (some "localhost:8000")
      (some "http://localhost:8000") (some "same-origin") "http" refl

abbrev first : Sent ℤ
first = send (λ p. true) settings "halt" "stopped" (num 1000 1) (num 1001 1) []

send-cooldown_example :
    (send (λ p. true) settings "halt" "stopped again" (num 1100 1) (num 1101 1) first.state
      ≡ record { delivered = false; state = first.state; posts = [] })
    × ((other : String) → "halt" ≢ other → last_sent other first.state ≡ last_sent other [])
unfolding send
send-cooldown_example =
    send-cooldown (λ p. true) (λ p. true) settings "halt" "stopped" "stopped again" (num 1000 1)
      (num 1001 1) (num 1100 1) (num 1101 1) [] refl refl

abbrev race : List LockOp
race = acquires 7 ∷ acquires 4 ∷ releases 7 ∷ acquires 4 ∷ acquires 7 ∷ []

abbrev winner : ℕ
winner = 4

lock_run-exclusive_example : winner ≡ winner
unfolding lock_run
lock_run-exclusive_example = lock_run-exclusive race winner winner refl refl
