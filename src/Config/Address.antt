-- ===== src/Config/Address.antt =====
-- validate.go of pkg/config, the addresses: their parsing, the keys under which they are kept and
-- the conflicts between them. The map of addresses is the list of its keys with the names of the
-- listeners that hold them.
use gorp.Prelude.{
  String, Bool, false, ◌&&◌, ◌||◌, Option, none, some, ℤ, pos, ltb_ℤ, if◌then◌else◌, str_eq, one_of,
  List, [], ◌∷◌, ◌++◌,
}
use gorp.Config.Key.{split_key, address_key, unix_key}
use gorp.Config.Check.{Place, Problem, Library, Ip, bad_address, bad_port, conflicts, is_unset}

unfoldable pub listener_network : String → String
listener_network type =
    if str_eq type "http3"
    then "udp"
    else if one_of type ("unix" ∷ "unix_tcp" ∷ [])
    then "unix"
    else "tcp"

unfoldable pub hosts_conflict : String → String → Bool
hosts_conflict first second = str_eq first second || str_eq first "*" || str_eq second "*"

abbrev pub Addresses : Type 0
Addresses = List (String × List String)

unfoldable pub holders : String → Addresses → Option (List String)
holders key [] = none
holders key ((k, names) ∷ rest) = if str_eq k key then some names else holders key rest

-- addresses[key] = append(addresses[key], name)
unfoldable pub hold : String → String → Addresses → Addresses
hold key name [] = (key, name ∷ []) ∷ []
hold key name ((k, names) ∷ rest) =
    if str_eq k key then (k, names ++ name ∷ []) ∷ rest else (k, names) ∷ hold key name rest

abbrev pub same_port : String → String → String → Option (String × (String × String)) → Bool
unfolding hosts_conflict
same_port network host port none = false
same_port network host port (some (n, (h, q))) =
    str_eq n network && str_eq q port && hosts_conflict host h

unfoldable pub clashes : String → String → String → String → Bool
unfolding split_key
clashes network host port key = same_port network host port (split_key key)

-- The names under the first key that clashes, in the order of the list.
unfoldable pub conflicting : String → String → String → Addresses → Option (List String)
unfolding clashes
conflicting network host port [] = none
conflicting network host port ((key, names) ∷ rest) =
    if clashes network host port key then some names else conflicting network host port rest

-- existing[0]; every list in the map has an element
abbrev pub first_name : List String → String
first_name [] = ""
first_name (n ∷ ns) = n

abbrev pub conflict_with : Place → Option (List String) → List Problem
conflict_with p none = []
conflict_with p (some names) = (p, conflicts (first_name names)) ∷ []

module _ (lib : Library) where
  abbrev pub normal_host : String → Option Ip → String
  normal_host host none = lib.to_lower host
  normal_host host (some ip) = if ip.unspecified then "*" else ip.text

  abbrev pub or_any : String → String
  or_any host = if is_unset host then "*" else host

  -- The problems, and the host and port where there is none.
  abbrev pub checked_port : Place → String → Option ℤ → List Problem × Option (String × String)
  checked_port p host none = ((p, bad_port) ∷ [], none)
  checked_port p host (some n) =
      if ltb_ℤ n (pos 0) || ltb_ℤ (pos 65535) n
      then ((p, bad_port) ∷ [], none)
      else ([], some (or_any (normal_host host (lib.parse_ip host)), lib.itoa n))

  abbrev pub split_address :
      Place → Option (String × String) → List Problem × Option (String × String)
  split_address p none = ((p, bad_address) ∷ [], none)
  split_address p (some (host, port)) = checked_port p host (lib.atoi port)

  unfoldable pub validate_network_address : Place → String → List Problem × Option (String × String)
  validate_network_address p address = split_address p (lib.split_host_port address)

  -- A Unix path, kept where it is new.
  abbrev pub claim_path :
      Place → String → String → Addresses → Option (List String) → List Problem × Addresses
  unfolding hold
  claim_path p name key addresses none = ([], hold key name addresses)
  claim_path p name key addresses (some names) = (conflict_with p (some names), addresses)

  abbrev pub claim_port :
      Place
      → String
      → String
      → Addresses
      → List Problem × Option (String × String)
      → List Problem × Addresses
  unfolding conflicting hold
  claim_port p name network addresses (ps, none) = (ps, addresses)
  claim_port p name network addresses (ps, some (host, port)) =
      if str_eq port "0" then (ps, addresses) else (
        conflict_with p (conflicting network host port addresses),
        hold (address_key network host port) name addresses,
      )

  -- The problems of a listener's address that is set, and the addresses held after it.
  unfoldable pub claim_address :
      Place → String → String → String → Addresses → List Problem × Addresses
  unfolding listener_network holders validate_network_address
  claim_address p name type address addresses =
      let network = listener_network type in
      let key = unix_key network address in
      if str_eq network "unix"
      then claim_path p name key addresses (holders key addresses)
      else claim_port p name network addresses (validate_network_address p address)
