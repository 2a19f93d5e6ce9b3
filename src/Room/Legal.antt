-- ===== src/Room/Legal.antt =====
-- Which configurations of a room are taken.
use Prim.Native.String.{String}
use dungeon.Base.{
  arith, ◌≡◌, refl, ◌∙◌, true, false, Bool-cases, Option-cases, Option, none, some, inl, inr, ◌⊎◌,
  ℤ, pos, minus_one, Run, ok, fault,
}
use dungeon.Json.{Cjson}
use dungeon.Conf.{is_true, is_string, is_number}
use dungeon.Room.{Setting, u32_of, get_timeouts, get_address, get_config}

module _ (c : Cjson) {Addr : Type 0} (getaddrinfo : String → ℤ → Option Addr) (conf : c.Json)
    (st : Setting Addr) where
  open c use {Json, kind, valueint, valuestring, object_item}

  -- The keys that `get_config` asks for, each with some value.
  pub record Keys : Type 0 where
    pub enabled : Json
    pub host : Json
    pub port : Json
    pub recv : Json
    pub send : Json
    pub has_enabled : object_item conf "Enabled" ≡ some enabled
    pub has_host : object_item conf "LocalAddr" ≡ some host
    pub has_port : object_item conf "LocalPort" ≡ some port
    pub has_recv : object_item conf "TimeOut_Recv_ms" ≡ some recv
    pub has_send : object_item conf "TimeOut_Send_ms" ≡ some send

  -- The values are of the kinds that are wanted, and `a` is the address of the host and the port.
  pub record IsLegal (k : Keys) (a : Addr) : Type 0 where
    pub enabled : is_true (kind k.enabled) ≡ true
    pub host : is_string (kind k.host) ≡ true
    pub port : is_number (kind k.port) ≡ true
    pub resolves : getaddrinfo (valuestring k.host) (valueint k.port) ≡ some a
    pub recv : is_number (kind k.recv) ≡ true
    pub send : is_number (kind k.send) ≡ true

  module _ (k : Keys) where
    -- The setting that a legal configuration leads to.
    abbrev pub set_to : Addr → Setting Addr
    set_to a = record {
      local_addr = some a;
      recv = u32_of (valueint k.recv);
      send = u32_of (valueint k.send);
    }

    -- The call is refused, and the configuration is not legal.
    abbrev Refused : Run (ℤ × Setting Addr) → Type 0
    Refused run = (st' : Setting Addr) × (run ≡ ok (minus_one, st')) × ((a : Addr) → ¬ IsLegal k a)

    timeouts_taken :
        (a : Addr) (st' : Setting Addr)
        → is_number (kind k.recv) ≡ true
        → is_number (kind k.send) ≡ true
        → st'.local_addr ≡ some a
        → get_timeouts c getaddrinfo conf st' ≡ ok (pos 0, set_to a)
    unfolding get_timeouts
    timeouts_taken a st' recv send at = ground (arith, k.has_recv, recv, k.has_send, send, at)

    timeouts_recv :
        (st' : Setting Addr)
        → is_number (kind k.recv) ≡ false
        → Refused (get_timeouts c getaddrinfo conf st')
    unfolding get_timeouts
    timeouts_recv st' bad = (st', ground (arith, k.has_recv, bad), λ a legal. cc)

    timeouts_send :
        (st' : Setting Addr)
        → is_number (kind k.recv) ≡ true
        → is_number (kind k.send) ≡ false
        → Refused (get_timeouts c getaddrinfo conf st')
    unfolding get_timeouts
    timeouts_send st' recv bad = (
      record st' { recv = u32_of (valueint k.recv) },
      ground (arith, k.has_recv, recv, k.has_send, bad),
      λ a legal. cc,
    )

    -- What the timeouts decide, once the address is known.
    timeouts-cases :
        (a : Addr) (st' : Setting Addr)
        → st'.local_addr ≡ some a
        → ((is_number (kind k.recv) ≡ true)
            × (is_number (kind k.send) ≡ true)
            × (get_timeouts c getaddrinfo conf st' ≡ ok (pos 0, set_to a)))
          ⊎ Refused (get_timeouts c getaddrinfo conf st')
    timeouts-cases a st' at = elim (Bool-cases (is_number (kind k.recv))) [
      | inr bad ↦ inr (timeouts_recv st' bad)
      | inl recv ↦ elim (Bool-cases (is_number (kind k.send))) [
        | inr bad ↦ inr (timeouts_send st' recv bad)
        | inl send ↦ inl (recv, send, timeouts_taken a st' recv send at)
      ]
    ]

    address_host : is_string (kind k.host) ≡ false → Refused (get_address c getaddrinfo conf st)
    unfolding get_address
    address_host bad = (st, ground (arith, k.has_host, bad), λ a legal. cc)

    address_port :
        is_string (kind k.host) ≡ true
        → is_number (kind k.port) ≡ false
        → Refused (get_address c getaddrinfo conf st)
    unfolding get_address
    address_port host bad = (st, ground (arith, k.has_host, host, k.has_port, bad), λ a legal. cc)

    address_unknown :
        is_string (kind k.host) ≡ true
        → is_number (kind k.port) ≡ true
        → getaddrinfo (valuestring k.host) (valueint k.port) ≡ none
        → Refused (get_address c getaddrinfo conf st)
    unfolding get_address
    address_unknown host port no_address =
        (st, ground (arith, k.has_host, host, k.has_port, port, no_address), λ a legal. cc)

    address_found :
        (a : Addr)
        → is_string (kind k.host) ≡ true
        → is_number (kind k.port) ≡ true
        → getaddrinfo (valuestring k.host) (valueint k.port) ≡ some a
        → get_address c getaddrinfo conf st
          ≡ get_timeouts c getaddrinfo conf (record st { local_addr = some a })
    unfolding get_address
    address_found a host port found = ground (arith, k.has_host, host, k.has_port, port, found)

    -- What the host and the port and then the timeouts decide, for a room that is enabled.
    address-cases :
        is_true (kind k.enabled) ≡ true
        → ((a : Addr) × IsLegal k a × (get_address c getaddrinfo conf st ≡ ok (pos 0, set_to a)))
          ⊎ Refused (get_address c getaddrinfo conf st)
    address-cases enabled = elim (Bool-cases (is_string (kind k.host))) [
      | inr bad ↦ inr (address_host bad)
      | inl host ↦ elim (Bool-cases (is_number (kind k.port))) [
        | inr bad ↦ inr (address_port host bad)
        | inl port ↦ elim (Option-cases (getaddrinfo (valuestring k.host) (valueint k.port))) [
          | inl no_address ↦ inr (address_unknown host port no_address)
          | inr (a, found) ↦
              let goes_on = address_found a host port found in
              elim (timeouts-cases a (record st { local_addr = some a }) refl) [
                | inl (recv, send, run) ↦ inl (
                  a,
                  record {
                    enabled = enabled;
                    host = host;
                    port = port;
                    resolves = found;
                    recv = recv;
                    send = send;
                  },
                  goes_on ∙ run,
                )
                | inr (st', run, illegal) ↦ inr (st', goes_on ∙ run, illegal)
              ]
        ]
      ]
    ]

    config_disabled : is_true (kind k.enabled) ≡ false → Refused (get_config c getaddrinfo conf st)
    unfolding get_config
    config_disabled bad = (st, ground (arith, k.has_enabled, bad), λ a legal. cc)

    config_enabled :
        is_true (kind k.enabled) ≡ true
        → get_config c getaddrinfo conf st ≡ get_address c getaddrinfo conf st
    unfolding get_config
    config_enabled enabled = ground (arith, k.has_enabled, enabled)

    -- A configuration of a room that has all the keys that `get_config` asks for: if it is legal for an
    -- address, `get_config` returns 0 and has set that address and both timeouts; if it is legal for
    -- none, it returns -1.
    pub get_config-IsLegal :
        ((a : Addr) × IsLegal k a × (get_config c getaddrinfo conf st ≡ ok (pos 0, set_to a)))
        ⊎ ((st' : Setting Addr) × (get_config c getaddrinfo conf st ≡ ok (minus_one, st'))
            × ((a : Addr) → ¬ IsLegal k a))
    get_config-IsLegal = elim (Bool-cases (is_true (kind k.enabled))) [
      | inr bad ↦ inr (config_disabled bad)
      | inl enabled ↦
          let goes_on = config_enabled enabled in
          elim (address-cases enabled) [
            | inl (a, legal, run) ↦ inl (a, legal, goes_on ∙ run)
            | inr (st', run, illegal) ↦ inr (st', goes_on ∙ run, illegal)
          ]
    ]

  -- A configuration without the key that is asked for first is gone through as NULL.
  pub get_config_missing :
      object_item conf "Enabled" ≡ none → get_config c getaddrinfo conf st ≡ fault
  unfolding get_config
  get_config_missing h = ground (arith, h)
