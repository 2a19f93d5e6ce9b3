-- ===== src/Room.antt =====
-- The configuration of a room: `get_config` of src/modules/echo/mod.c and of src/modules/fake_httpd/mod.c,
-- which are the same. The document is a parameter, and so is what `getaddrinfo` makes of the host and of
-- the port's number.
pub mod Legal
mod Examples
use Prim.Native.String.{String}
use dungeon.Base.{
  ℕ, ◌-◌, ◌%◌, ◌^◌, Option, none, some, ℤ, pos, negsuc, minus_one, Run, ok, fault, ◌>>=◌,
  if◌then◌else◌,
}
use dungeon.Json.{Cjson}
use dungeon.Conf.{is_true, is_string, is_number}

-- The static `local_addr` and the fields of `timeo` that the configuration sets.
pub record Setting (Addr : Type 0) : Type 0 where
  pub local_addr : Option Addr
  pub recv : ℕ
  pub send : ℕ

-- An `int` stored to a `uint32_t`
abbrev pub u32_of : ℤ → ℕ
u32_of (pos n) = n % 2 ^ 32
u32_of (negsuc n) = 2 ^ 32 - 1 - n % 2 ^ 32

module _ (c : Cjson) {Addr : Type 0} (getaddrinfo : String → ℤ → Option Addr) where
  open c use {Json, kind, valueint, valuestring, object_item}

  -- `cJSON_GetObjectItem`, whose answer the code goes through at once.
  abbrev pub item : Json → String → Run Json
  item conf name = elim (object_item conf name) [ none ↦ fault | some value ↦ ok value ]

  -- The two timeouts. The first is set also if the second is illegal.
  unfoldable pub get_timeouts : Json → Setting Addr → Run (ℤ × Setting Addr)
  get_timeouts conf st = item conf "TimeOut_Recv_ms" >>= λ recv.
      let received = record st { recv = u32_of (valueint recv) } in
      let sends = item conf "TimeOut_Send_ms" >>= λ send.
      if is_number (kind send)
      then ok (pos 0, record received { send = u32_of (valueint send) })
      else ok (minus_one, received) in
      if is_number (kind recv) then sends else ok (minus_one, st)

  -- The address to listen at.
  unfoldable pub get_address : Json → Setting Addr → Run (ℤ × Setting Addr)
  unfolding get_timeouts
  get_address conf st = item conf "LocalAddr" >>= λ host.
      let resolved = item conf "LocalPort" >>= λ port.
      let looked_up : Run (ℤ × Setting Addr) =
        elim (getaddrinfo (valuestring host) (valueint port)) [
          | none ↦ ok (minus_one, st)
          | some a ↦ get_timeouts conf (record st { local_addr = some a })
        ] in
      if is_number (kind port) then looked_up else ok (minus_one, st) in
      if is_string (kind host) then resolved else ok (minus_one, st)

  unfoldable pub get_config : Json → Setting Addr → Run (ℤ × Setting Addr)
  unfolding get_address
  get_config conf st = item conf "Enabled" >>= λ enabled.
      let rest = get_address conf st in if is_true (kind enabled) then rest else ok (minus_one, st)
