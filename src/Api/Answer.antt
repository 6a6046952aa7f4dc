-- ===== src/Api/Answer.antt =====
-- pkg/api/server.go: what the handlers answer, and the times of a request. A time is in nanoseconds
-- since Go's zero time; the clock is behind the Unix epoch.
use a.Prelude.{
  ℕ, suc, ◌+◌, ◌-◌, ◌*◌, ◌/◌, ◌^◌, Bool, true, false, Option, none, some, [], ◌∷◌, ltb, leb, ◌==◌,
  if◌then◌else◌,
}
use a.Golang.Int.{ℤ, pos, negsuc, neg}
use a.Golang.Slice.{Bytes}
use a.Golang.Text.{digits_value, show_int}
use a.Model.Convert.{unix_epoch}

pub record ApiResponse (B : Type 0) : Type 0 where
  pub code : ℕ
  pub message : Bytes
  pub body : Option B

-- `c.JSON`, `c.String` with its content type, and `c.AbortWithStatus`, each with its status; and a
-- `c.JSON` without a body, since its data was refused.
pub data Response (B : Type 0) : Type 0 where
  json : ℕ → ApiResponse B → Response B
  plain : ℕ → Bytes → Bytes → Response B
  bare : ℕ → Response B
  unsent : ℕ → Response B

abbrev pub reply : {B : Type 0} → ℕ → ℕ → Bytes → Option B → Response B
reply status code message body =
    json status (record { code = code; message = message; body = body })

-- `c.JSON` with data, of which `encodes` says whether encoding/json takes it: it refuses a NaN and an
-- infinity, and then there is no body.
abbrev pub send : {B : Type 0} → (B → Bool) → ℕ → ℕ → Bytes → B → Response B
send encodes status code message body =
    if encodes body then reply status code message (some body) else unsent status

-- a - b, as an integer.
abbrev pub minus_ℕ : ℕ → ℕ → ℤ
minus_ℕ a b = if leb b a then pos (a - b) else neg (b - a)

-- `time.UnixMilli`
unfoldable pub unix_milli : ℤ → ℤ
unix_milli (pos ms) = pos (unix_epoch + ms * 10 ^ 6)
unix_milli (negsuc ms) = minus_ℕ unix_epoch (suc ms * 10 ^ 6)

-- `UnixMilli()` and `Unix()` of a time behind the epoch.
abbrev pub millis : ℕ → ℕ
millis t = (t - unix_epoch) / 10 ^ 6

abbrev pub seconds : ℕ → ℕ
seconds t = (t - unix_epoch) / 10 ^ 9

abbrev pub hour : ℕ
hour = 3600 * 10 ^ 9

-- The value that `strconv.ParseInt` with 64 bits returns, whatever its error is: 0 for a text that
-- is no number, and the nearest int64 for a number that is none.
unfoldable pub int_or_nearest : Bool → Option ℕ → ℤ
int_or_nearest sign none = pos 0
int_or_nearest false (some n) = pos (if ltb n (2 ^ 63) then n else 2 ^ 63 - 1)
int_or_nearest true (some n) = neg (if leb n (2 ^ 63) then n else 2 ^ 63)

unfoldable pub parse_digits : Bool → Bytes → ℤ
unfolding int_or_nearest digits_value
parse_digits sign [] = pos 0
parse_digits sign (c ∷ r) = int_or_nearest sign (digits_value 0 (c ∷ r))

unfoldable pub parse_int : Bytes → ℤ
unfolding parse_digits
parse_int [] = pos 0
parse_int (c ∷ r) =
    if c == b'-'
    then parse_digits true r
    else if c == b'+'
    then parse_digits false r
    else parse_digits false (c ∷ r)

-- `c.DefaultQuery` of a parameter in milliseconds, parsed and made a time.
abbrev pub query_or : Option Bytes → Bytes → Bytes
query_or none default = default
query_or (some value) default = value

unfoldable pub time_of : Option Bytes → ℕ → ℤ
unfolding unix_milli parse_int show_int
time_of given default = unix_milli (parse_int (query_or given (show_int (pos (millis default)))))
