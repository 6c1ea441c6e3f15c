-- ===== src/Sender/Footer.antt =====
-- internal/sender/status_footer.go
use webot_msg.Common.{ℕ, ◌/◌, ◌%◌, ◌++◌, ◌&&◌, [], ltb, if◌then◌else◌, Text, codes}
use webot_msg.Common.Int.{ℤ, pos, ltb_ℤ, pos_part}
use webot_msg.Strconv.{itoa}
use webot_msg.Protection.Guard.{Reservation}

-- Nanoseconds in a minute.
abbrev pub minute : ℕ
minute = 60000000000

-- `value` is at least a minute where it is divided.
unfoldable pub format_status_footer_duration : ℤ → Text
format_status_footer_duration value =
    if ltb_ℤ value (pos minute)
    then codes "<1m"
    else let minutes = pos_part value / minute in
      let hours = minutes / 60 in
      let remaining_minutes = minutes % 60 in
      if ltb 0 hours && ltb 0 remaining_minutes
      then itoa (pos hours) ++ (codes "h" ++ (itoa (pos remaining_minutes) ++ codes "m"))
      else if ltb 0 hours
      then itoa (pos hours) ++ codes "h"
      else itoa (pos remaining_minutes) ++ codes "m"

-- Nothing where the reservation carries no status.
unfoldable pub protection_status_footer : Reservation → Text
protection_status_footer reservation =
    if reservation.has_status
    then codes "[限流阈值] 剩余可发 "
      ++ (itoa reservation.messages_before_reminder
          ++ (codes " 条 | 距离限制还有 "
              ++ format_status_footer_duration reservation.time_before_warning))
    else []
