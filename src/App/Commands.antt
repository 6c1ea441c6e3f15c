-- ===== src/App/Commands.antt =====
-- internal/app/app.go: choosing and deleting a bot by its number, and sending a text by hand. What is
-- printed is left out.
pub mod Numbers
use webot_msg.Common.{
  ℕ, suc, Bool, true, false, ◌||◌, Option, none, some, List, [], ◌∷◌, if◌then◌else◌, Text, text_eq,
  codes, is_empty, Error, failed,
}
use webot_msg.Common.Int.{ℤ, pos, eqb_ℤ}
use webot_msg.Config.{UserConfig}
use webot_msg.Config.Store.{Store, valid_bot_ids, delete_bot_by_index, single_bot_id}
use webot_msg.Protection.Guard.{is_rejection, rejection_reason, rejection_message}
use webot_msg.Sender.ProtectedText.{Services, TextResult, send_protected_text}
use webot_msg.App.Drainers.{Drainers, stop_send_queue_drainer}

abbrev or_nobody : Option Text → Text
or_nobody none = []
or_nobody (some bot) = bot

unfoldable pub default_bot_id : Store → Text
default_bot_id s = or_nobody (single_bot_id s)

-- internal/config/store.go: the bots with their numbers.
unfoldable pub numbered : ℕ → List Text → List (ℕ × Text)
numbered n [] = []
numbered n (id ∷ ids) = (n, id) ∷ numbered (suc n) ids

unfoldable pub list_bots : Store → List (ℕ × Text)
list_bots s = numbered 1 (valid_bot_ids s)

unfoldable pub entry_at : ℤ → List (ℕ × Text) → Option Text
entry_at idx [] = none
entry_at idx ((n, id) ∷ entries) =
    let rest = entry_at idx entries in if eqb_ℤ (pos n) idx then some id else rest

unfoldable pub select_bot : ℤ → Store → Option Text
select_bot idx s = entry_at idx (list_bots s)

-- The table of the checkers holds the ids of their bots; the goroutine of a checker is left out.
unfoldable pub stop_protection_checker : Text → (Text → Bool) → Text → Bool
stop_protection_checker bot checkers other = if text_eq bot other then false else checkers other

-- What the deletion of a bot changes.
pub record Tables : Type 0 where
  pub store : Store
  pub checkers : Text → Bool
  pub drainers : Drainers

abbrev after_delete : Tables → (Option Text × Option Error) × Store → Option Text × Tables
after_delete t ((id, some e), s) = (none, record t { store = s })
after_delete t ((none, none), s) = (none, record t { store = s })
after_delete t ((some id, none), s) = (
  some id,
  record {
    store = s;
    checkers = stop_protection_checker id t.checkers;
    drainers = stop_send_queue_drainer id t.drainers;
  },
)

unfoldable pub delete_bot : ℤ → Tables → Option Text × Tables
delete_bot idx t = after_delete t (delete_bot_by_index idx t.store)

module _ {W : Type 0} (v : Services W) (reminder_text : Text) where
  abbrev plain_error : Option Error → Option Error
  plain_error none = none
  plain_error (some e) =
      if is_rejection e then some (failed (rejection_message (rejection_reason e))) else some e

  abbrev told : (TextResult × Option Error) × W → Option Error × W
  told ((result, e), w) = (plain_error e, w)

  unfoldable pub send_text : Option UserConfig → Text → W → Option Error × W
  send_text none text w =
      (some (failed (codes "No active bot selected. Type '/bots' to select.")), w)
  send_text (some user) text w =
      if is_empty user.ilink_user_id || is_empty user.context_token
      then (
        some (
            failed (
              codes
                "Active user has no message context to reply to. (Wait for one message or context is missing)")),
        w,
      )
      else told (send_protected_text v user text reminder_text w)
