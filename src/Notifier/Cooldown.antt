-- ===== src/Notifier/Cooldown.antt =====
-- The cooldown of notifications (app/notifications.py).
use binance_bot.Base.{String, ◌≡◌, ◌≢◌, Bool, true, false, some, [], ◌∷◌, arith, eq_iff, eq_refl}
use binance_bot.Base.Float.{Float, ◌⊖◌, ◌<?◌}
use binance_bot.Config.{Settings}
use binance_bot.Notifier.{Post, LastSent, last_sent, mark_sent, cooldown_active, send}

last_sent-mark_sent :
    {F : Type 0} (k : String) (t : F) (m : LastSent F) → last_sent k (mark_sent k t m) ≡ some t
unfolding last_sent mark_sent
last_sent-mark_sent k t [] = ground (arith, eq_refl k)
last_sent-mark_sent k t ((j, u) ∷ m) = ground (arith, last_sent-mark_sent k t m)

last_sent-mark_other :
    {F : Type 0} (k l : String) (t : F) (m : LastSent F)
    → k ≢ l
    → last_sent l (mark_sent k t m) ≡ last_sent l m
unfolding last_sent mark_sent
last_sent-mark_other k l t [] h = ground (arith, eq_iff k l)
last_sent-mark_other k l t ((j, u) ∷ m) h =
    ground (arith, last_sent-mark_other k l t m h, eq_iff j k, eq_iff j l)

module _ {F : Type 0} ⦃fl : Float F⦄ where
  -- After a delivered notification, the same event within the interval makes no request, reports
  -- nothing sent and leaves the table as it is; any other event is treated as if it had not happened.
  pub send-cooldown :
      (post post' : Post → Bool) (c : Settings F) (key text text' : String)
      (now later now' later' : F) (m : LastSent F)
      → (send post c key text now later m).delivered ≡ true
      → (now' ⊖ later <? c.notify_min_interval_seconds) ≡ true
      → (send post' c key text' now' later' (send post c key text now later m).state ≡ record {
        delivered = false;
        state = (send post c key text now later m).state;
        posts = [];
      })
        × ((other : String)
            → key ≢ other
            → last_sent other (send post c key text now later m).state ≡ last_sent other m)
  unfolding send cooldown_active
  send-cooldown post post' c key text text' now later now' later' m h k = (
    ground (arith, last_sent-mark_sent key later m),
    λ other d. ground (arith, last_sent-mark_other key other later m d),
  )
