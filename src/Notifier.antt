-- ===== src/Notifier.antt =====
-- Outbound notifications (app/notifications.py, class Notifier). Whether a request succeeds is an
-- answer of the network, and the clock is read at the start of `send` and when it marks the event.
pub mod Cooldown
use binance_bot.Base.{
  ℕ, String, ◌<>◌, Bool, true, false, not, ◌&&◌, ◌||◌, Option, none, some, List, [], ◌∷◌, ◌++◌,
  str_eq, if◌then◌else◌,
}
use binance_bot.Base.Float.{Float, ◌⊖◌, ◌<?◌}
use binance_bot.Config.{Mode, Settings}

-- the request bodies of the two destinations, less the webhook's timestamp text
pub data Payload : Type 0 where
  -- event, text, mode and symbol
  webhook_payload : String → String → Mode → String → Payload
  -- chat id and text
  telegram_payload : String → String → Payload

-- a POST
pub record Post : Type 0 where
  pub url : String
  pub payload : Payload

-- `_last_sent_monotonic`
abbrev pub LastSent : Type 0 → Type 0
LastSent F = List (String × F)

unfoldable pub last_sent : {F : Type 0} → String → LastSent F → Option F
last_sent k [] = none
last_sent k ((j, t) ∷ m) = if str_eq j k then some t else last_sent k m

abbrev pub is_set : String → Bool
is_set v = not (str_eq v "")

-- what `send` returns, the cooldown table after it, and the requests it made
pub record Sent (F : Type 0) : Type 0 where
  pub delivered : Bool
  pub state : LastSent F
  pub posts : List Post

module _ {F : Type 0} where
  abbrev pub telegram_set : Settings F → Bool
  telegram_set c = is_set c.notify_telegram_bot_token && is_set c.notify_telegram_chat_id

  unfoldable pub enabled : Settings F → Bool
  enabled c = is_set c.notify_webhook_url || telegram_set c

  -- `_mark_sent`
  unfoldable pub mark_sent : String → F → LastSent F → LastSent F
  mark_sent k t [] = (k, t) ∷ []
  mark_sent k t ((j, u) ∷ m) = if str_eq j k then (j, t) ∷ m else (j, u) ∷ mark_sent k t m

  unfoldable pub webhook_posts : Settings F → String → String → List Post
  webhook_posts c key text =
      if is_set c.notify_webhook_url
      then record { url = c.notify_webhook_url; payload = webhook_payload key text c.mode c.symbol }
        ∷ []
      else []

  unfoldable pub telegram_posts : Settings F → String → String → List Post
  telegram_posts c key text =
      if telegram_set c
      then record {
        url = "https://api.telegram.org/bot" <> (c.notify_telegram_bot_token <> "/sendMessage");
        payload = telegram_payload c.notify_telegram_chat_id ("[" <> (key <> ("] " <> text)));
      }
        ∷ []
      else []

-- whether some request of the list succeeds
unfoldable pub any_posted : (Post → Bool) → List Post → Bool
any_posted post [] = false
any_posted post (p ∷ ps) = post p || any_posted post ps

module _ {F : Type 0} ⦃fl : Float F⦄ where
  unfoldable pub cooldown_active : Settings F → String → F → LastSent F → Bool
  unfolding last_sent
  cooldown_active c key now m = elim (last_sent key m) [
    | none ↦ false
    | some last ↦ now ⊖ last <? c.notify_min_interval_seconds
  ]

  -- `now` is the clock at the cooldown test, `later` the clock at `_mark_sent`
  unfoldable pub send : (Post → Bool) → Settings F → String → String → F → F → LastSent F → Sent F
  unfolding enabled cooldown_active webhook_posts telegram_posts any_posted mark_sent
  send post c key text now later m =
      if not (enabled c) || cooldown_active c key now m
      then record { delivered = false; state = m; posts = [] }
      else (let hook = webhook_posts c key text in
          let bot = telegram_posts c key text in
          let delivered = any_posted post hook || any_posted post bot in
          record {
            delivered = delivered;
            state = if delivered then mark_sent key later m else m;
            posts = hook ++ bot;
          })
