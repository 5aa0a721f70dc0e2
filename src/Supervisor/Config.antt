-- ===== src/Supervisor/Config.antt =====
-- `validateConfig` of stacks/gpt-webai-pro/src/supervisor/run.ts, on a configuration whose fields
-- have the declared types: the tests of a field's type, as of an array or an integer, are not
-- modelled. `JSON.stringify` of an entry, which only a message holds, is an argument.
use Prim.Native.Char.{Char, code}
use Prim.Native.String.{◌++◌, char_at, slice, len}
use home_server_infra.Prelude.{
  ℕ, zero, suc, ◌-◌, String, Bool, true, false, ◌&&◌, ◌||◌, not, Option, none, some, List, [], ◌∷◌,
  ◌≡◌, refl, arith, ◌↔◌, ltb, leb, ◌==◌, str_eq, any, all, if◌then◌else◌,
}
use home_server_infra.Prelude.Text.{truthy}
use home_server_infra.Shared.Types.{SlotConfig, SlotsConfig}
use home_server_infra.Shared.Failure.{Failure, input_error}
use home_server_infra.Database.Store.{Result, ok, thrown}

abbrev is_between : ℕ → ℕ → Char → Bool
is_between low high c = leb low (code c) && leb (code c) high

-- [a-z0-9]
abbrev is_id_char : Char → Bool
is_id_char c = is_between 97 122 c || is_between 48 57 c

-- `fuel` characters from index `i` on
abbrev are_id_chars : ℕ → ℕ → String → Bool
are_id_chars zero i s = true
are_id_chars (suc fuel) i s = is_id_char (char_at s i) && are_id_chars fuel (suc i) s

-- /^slot-[a-z0-9]+$/
unfoldable pub is_slot_id : String → Bool
is_slot_id s = str_eq (slice s 0 5) "slot-" && leb 6 (len s) && are_id_chars (len s - 5) 5 s

abbrev pub is_weekly_limit : ℕ → Bool
is_weekly_limit value = leb 1 value

-- an absent limit, or one of at least 1
abbrev pub has_limit : Option ℕ → Bool
has_limit none = true
has_limit (some limit) = is_weekly_limit limit

abbrev pub has_port : ℕ → Bool
has_port port = leb 1 port && leb port 65535

-- the sets `ids`, `accounts` and `ports`
pub record Seen : Type 0 where
  pub ids : List String
  pub accounts : List String
  pub ports : List ℕ

abbrev see : SlotConfig → Seen → Seen
see slot seen = record {
  ids = slot.id ∷ seen.ids;
  accounts = slot.account ∷ seen.accounts;
  ports = slot.port ∷ seen.ports;
}

module _ (stringify : SlotConfig → String) where
  -- the loop over the slots
  unfoldable pub validate_slots : Seen → List SlotConfig → Option Failure
  validate_slots seen [] = none
  validate_slots seen (slot ∷ slots) =
      let rest = validate_slots (see slot seen) slots in
      if not (is_slot_id slot.id)
        || not (truthy (some slot.account))
        || any (str_eq slot.id) seen.ids
        || any (str_eq slot.account) seen.accounts
      then some (input_error ("invalid slot config entry: " ++ stringify slot))
      else if not (has_port slot.port) || any (λ p. slot.port == p) seen.ports
      then some (input_error ("invalid or duplicate port for slot " ++ slot.id))
      else if not (has_limit slot.weekly_limit)
      then some (input_error ("invalid weeklyLimit for slot " ++ slot.id))
      else rest

  unfoldable pub validate_config : SlotsConfig → Result SlotsConfig
  unfolding validate_slots
  validate_config config =
      if ltb config.max_concurrent 1
      then thrown (input_error "invalid slots config")
      else elim (validate_slots (record { ids = []; accounts = []; ports = [] }) config.slots) [
        | some failure ↦ thrown failure
        | none ↦
            if has_limit config.weekly_limit
            then ok config
            else thrown (input_error "invalid weeklyLimit")
      ]

-- An entry that is right by itself.
abbrev pub is_good : SlotConfig → Bool
is_good s =
    is_slot_id s.id && truthy (some s.account) && has_port s.port && has_limit s.weekly_limit

-- Two entries that share nothing that must be their own.
abbrev pub is_apart : SlotConfig → SlotConfig → Bool
is_apart earlier later =
    not (str_eq later.id earlier.id)
    && not (str_eq later.account earlier.account)
    && not (later.port == earlier.port)

abbrev pub all_apart : List SlotConfig → Bool
all_apart [] = true
all_apart (s ∷ slots) = all (is_apart s) slots && all_apart slots

abbrev is_unseen : Seen → SlotConfig → Bool
is_unseen seen s =
    not (any (str_eq s.id) seen.ids)
    && not (any (str_eq s.account) seen.accounts)
    && not (any (λ p. s.port == p) seen.ports)

abbrev pub is_valid_config : SlotsConfig → Bool
is_valid_config config =
    leb 1 config.max_concurrent
    && all is_good config.slots
    && all_apart config.slots
    && has_limit config.weekly_limit

unseen-see :
    (s : SlotConfig) (seen : Seen) (slots : List SlotConfig)
    → all (is_unseen (see s seen)) slots ≡ (all (is_unseen seen) slots && all (is_apart s) slots)
unseen-see s seen [] = refl
unseen-see s seen (slot ∷ slots) = ground (arith, unseen-see s seen slots)

abbrev is_accepted : Option Failure → Bool
is_accepted none = true
is_accepted (some failure) = false

validate_slots-accepts :
    (stringify : SlotConfig → String) (seen : Seen) (slots : List SlotConfig)
    → is_accepted (validate_slots stringify seen slots)
      ≡ (all is_good slots && all (is_unseen seen) slots && all_apart slots)
unfolding validate_slots
validate_slots-accepts stringify seen [] = refl
validate_slots-accepts stringify seen (slot ∷ slots) =
    ground
      (arith, validate_slots-accepts stringify (see slot seen) slots, unseen-see slot seen slots)

nothing_seen :
    (slots : List SlotConfig)
    → all (is_unseen (record { ids = []; accounts = []; ports = [] })) slots ≡ true
nothing_seen [] = refl
nothing_seen (s ∷ slots) = nothing_seen slots

abbrev is_ok : Result SlotsConfig → Bool
is_ok (ok config) = true
is_ok (thrown failure) = false

-- A configuration is accepted, and then returned as it is, exactly where it allows a request or
-- more for each slot, every entry is right by itself, no two entries share an id, an account or a
-- port, and the general limit, if there is one, is at least 1.
pub validate_config_lem :
    (stringify : SlotConfig → String) (config : SlotsConfig)
    → (validate_config stringify config ≡ ok config) ↔ (is_valid_config config ≡ true)
unfolding validate_config
validate_config_lem stringify config =
    let slots =
      validate_slots-accepts stringify (record { ids = []; accounts = []; ports = [] })
        config.slots in
    (
      λ h. ground (arith, slots, nothing_seen config.slots),
      λ h. ground (arith, slots, nothing_seen config.slots),
    )
