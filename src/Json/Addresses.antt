-- ===== src/Json/Addresses.antt =====
-- daemon/src/interfaces/core.ts: what isAddress accepts.
use kachery_p2p.Base.{
  ◌≡◌, refl, subst, ◌⊎◌, inl, inr, Bool, true, false, ◌&&◌, String, arith, Bool-cases, string_eq,
}
use text.Mathlib.TextEquality.{eq_iff}
use kachery_p2p.Json
use kachery_p2p.Json.{
  Number, Value, undefined, null, boolean, number, string, array, object, truthy, optional,
  validate_object, validate_fields,
}
use kachery_p2p.Json.Types.{
  is_host_name, is_port, is_url, is_url_string, is_address, split, is_label,
}

-- What an optional test lets through: nothing, or what the test does.
abbrev Absent : (Value → Bool) → Value → Type 0
Absent check x = optional check x ≡ true → truthy x ≡ false → x ≡ undefined

is_host_name-Absent : (x : Value) → Absent is_host_name x
unfolding optional truthy is_host_name split is_label
is_host_name-Absent undefined p f = refl
is_host_name-Absent (string s) p f =
    let e : s ≡ "" = ground (arith, eq_iff s "") in
    cc (subst (λ t. is_host_name (string t) ≡ true) e p)
is_host_name-Absent _ p f = cc

is_port-Absent : (x : Value) → Absent is_port x
unfolding optional truthy is_port
is_port-Absent undefined p f = refl
is_port-Absent (number n) p f = ground arith
is_port-Absent _ p f = cc

is_url_string-Absent : (x : Value) → Absent is_url_string x
unfolding optional truthy is_url_string
is_url_string-Absent undefined p f = refl
is_url_string-Absent (string s) p f =
    let e : s ≡ "" = ground (arith, eq_iff s "") in
    cc (subst (λ t. is_url_string (string t) ≡ true) e p)
is_url_string-Absent _ p f = cc

is_host_name-string :
    (x : Value)
    → optional is_host_name x ≡ true
    → truthy x ≡ true
    → (s : String) × (x ≡ string s) × (is_host_name (string s) ≡ true)
unfolding optional truthy is_host_name
is_host_name-string (string s) p t = (s, refl, p)
is_host_name-string undefined p t = cc
is_host_name-string _ p t = cc

is_port-number :
    (x : Value)
    → optional is_port x ≡ true
    → truthy x ≡ true
    → (n : Number) × (x ≡ number n) × (is_port (number n) ≡ true)
unfolding optional truthy is_port
is_port-number (number n) p t = (n, refl, p)
is_port-number undefined p t = cc
is_port-number _ p t = cc

is_url_string-string :
    (x : Value)
    → optional is_url_string x ≡ true
    → truthy x ≡ true
    → (s : String) × (x ≡ string s) × (is_url s ≡ true)
unfolding optional truthy is_url_string
is_url_string-string (string s) p t = (s, refl, p)
is_url_string-string undefined p t = cc
is_url_string-string _ p t = cc

-- An address that passes the check has either a valid host name and a valid port and no URL, or a valid
-- URL and neither of the two.
pub is_address_lem :
    (x : Value)
    → is_address x ≡ true
    → ((s : String) × (n : Number) × (Json.get x "hostName" ≡ string s)
        × (is_host_name (string s) ≡ true)
        × (Json.get x "port" ≡ number n)
        × (is_port (number n) ≡ true)
        × (Json.get x "url" ≡ undefined))
      ⊎ ((u : String) × (Json.get x "url" ≡ string u)
          × (is_url u ≡ true)
          × (Json.get x "hostName" ≡ undefined)
          × (Json.get x "port" ≡ undefined))
unfolding is_address validate_object validate_fields
is_address_lem x h =
    let host = Json.get x "hostName" in
    let port = Json.get x "port" in
    let url = Json.get x "url" in
    let (host_ok, port_ok, url_ok) : (optional is_host_name host ≡ true)
        × (optional is_port port ≡ true)
        × (optional is_url_string url ≡ true) =
      ground arith in
    elim (Bool-cases (truthy host && truthy port)) [
      | inl t ↦
          let (s, is_s, good) = is_host_name-string host host_ok (ground arith) in
          let (n, is_n, fine) = is_port-number port port_ok (ground arith) in
          inl (s, n, is_s, good, is_n, fine, is_url_string-Absent url url_ok (ground arith))
      | inr f ↦
          let (u, is_u, good) = is_url_string-string url url_ok (ground arith) in
          inr (
            u,
            is_u,
            good,
            is_host_name-Absent host host_ok (ground arith),
            is_port-Absent port port_ok (ground arith),
          )
    ]
