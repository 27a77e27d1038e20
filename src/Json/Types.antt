-- ===== src/Json/Types.antt =====
-- daemon/src/interfaces/core.ts: the checks of the types that are texts, numbers and small objects.
-- A regular expression is a test of the codes of the text; `length` of the source counts a code from
-- 65536 on as two.
use Prim.Native.Char.{code}
use text.Mathlib.Text.{starts_with}
use kachery_p2p.Base.{
  ℕ, suc, Bool, true, false, not, ◌&&◌, ◌||◌, List, [], ◌∷◌, String, length, ltb, leb, get_last?,
  none, some, if◌then◌else◌, ◌==◌, nat_eq, string_eq,
}
use kachery_p2p.Json
use kachery_p2p.Json.{
  Number, Value, boolean, number, string, array, object, below_zero, below, is_integer, is_object,
  is_null, is_boolean, is_number, truthy, is_one_of, optional, is_array_of, is_object_of, Spec,
  done, test, nested, validate_object, is_json_object, is_equal_to,
}

abbrev pub codes : String → List ℕ
codes String.[] = []
codes (String.◌∷◌ c s) = code c ∷ codes s

abbrev pub text_length : String → ℕ
text_length String.[] = 0
text_length (String.◌∷◌ c s) =
    let rest = text_length s in if ltb (code c) 65536 then suc rest else suc (suc rest)

abbrev pub every : (ℕ → Bool) → List ℕ → Bool
every p [] = true
every p (c ∷ cs) = p c && every p cs

abbrev pub between : (low high c : ℕ) → Bool
between low high c = leb low c && leb c high

unfoldable pub is_hex_digit : ℕ → Bool
is_hex_digit c = between b'0' b'9' c || between b'a' b'f' c || between b'A' b'F' c

unfoldable pub is_letter : ℕ → Bool
is_letter c = between b'a' b'z' c || between b'A' b'Z' c

unfoldable pub is_alphanumeric : ℕ → Bool
unfolding is_letter
is_alphanumeric c = is_letter c || between b'0' b'9' c

-- A test of a text; of any other value it fails.
abbrev pub on_text : (String → Bool) → Value → Bool
on_text p (string s) = p s
on_text p _ = false

abbrev pub on_number : (Number → Bool) → Value → Bool
on_number p (number n) = p n
on_number p _ = false

-- `isHexadecimal` with a length
unfoldable pub is_hexadecimal : String → ℕ → Bool
unfolding is_hex_digit
is_hexadecimal s n = every is_hex_digit (codes s) && (length (codes s) == n)

unfoldable pub is_public_key_hex : Value → Bool
is_public_key_hex x = on_text (λ s. is_hexadecimal s 64) x

unfoldable pub is_private_key_hex : Value → Bool
is_private_key_hex x = on_text (λ s. is_hexadecimal s 64) x

unfoldable pub is_sha1_hash : Value → Bool
is_sha1_hash x = on_text (λ s. is_hexadecimal s 40) x

unfoldable pub is_signature : Value → Bool
is_signature x = on_text (λ s. is_hexadecimal s 128) x

unfoldable pub is_node_id : Value → Bool
is_node_id x = on_text (λ s. is_hexadecimal s 64) x

unfoldable pub is_feed_id : Value → Bool
is_feed_id x = on_text (λ s. is_hexadecimal s 64) x

unfoldable pub is_subfeed_hash : Value → Bool
is_subfeed_hash x = on_text (λ s. is_hexadecimal s 40) x

unfoldable pub is_file_key_hash : Value → Bool
is_file_key_hash x = is_sha1_hash x

-- `^[A-Za-z]{10}$`
abbrev pub is_ten_letters : Value → Bool
is_ten_letters x = on_text (λ s. every is_letter (codes s) && (length (codes s) == 10)) x

unfoldable pub is_request_id : Value → Bool
is_request_id x = is_ten_letters x

unfoldable pub is_port : Value → Bool
is_port x = on_number (λ n. (not n.negative && ltb 0 n.numerator) && below n 65536) x

-- The parts of a text between the codes `c`.
unfoldable pub split : ℕ → List ℕ → List (List ℕ)
split c [] = [] ∷ []
split c (d ∷ ds) =
    let rest = split c ds in
    if d == c
    then [] ∷ rest
    else elim rest [ [] ↦ (d ∷ []) ∷ [] | part ∷ parts ↦ (d ∷ part) ∷ parts ]

abbrev pub ends_in : (ℕ → Bool) → List ℕ → Bool
ends_in p cs = elim (get_last? cs) [ none ↦ false | some c ↦ p c ]

-- `^A(B*A)?$` for a class A within the class B, which is A and the dash.
unfoldable pub is_label : (ℕ → Bool) → List ℕ → Bool
is_label p [] = false
is_label p (c ∷ cs) = p c && every (λ d. p d || (d == b'-')) cs && ends_in p (c ∷ cs)

abbrev pub all_labels : (ℕ → Bool) → List (List ℕ) → Bool
all_labels p [] = true
all_labels p (part ∷ parts) = is_label p part && all_labels p parts

unfoldable pub is_host_name : Value → Bool
is_host_name x = on_text (λ s. all_labels is_alphanumeric (split b'.' (codes s))) x

unfoldable pub is_node_label : Value → Bool
is_node_label x =
    on_text
      (λ s.
        leb (text_length s) 20
        && all_labels (λ c. is_alphanumeric c || (c == b'@')) (split b'.' (codes s)))
      x

abbrev pub is_url : String → Bool
is_url s = (starts_with s "http://" || starts_with s "https://") && leb (text_length s) 500

unfoldable pub is_url_string : Value → Bool
is_url_string x = on_text is_url x

unfoldable pub is_channel_config_url : Value → Bool
is_channel_config_url x = on_text is_url x

abbrev pub address_spec : Spec
address_spec =
    test "hostName" (optional is_host_name)
      (test "port" (optional is_port) (test "url" (optional is_url_string) done))

unfoldable pub is_address : Value → Bool
is_address x =
    let host_name = truthy (Json.get x "hostName") in
    let port = truthy (Json.get x "port") in
    let url = truthy (Json.get x "url") in
    validate_object address_spec x
    && (if host_name && port then not url else if url then not (host_name || port) else false)

-- `isTimestamp`, and the checks that a number is not negative.
unfoldable pub is_timestamp : Value → Bool
is_timestamp x = on_number (λ n. not (below_zero n) && is_integer n) x

abbrev pub is_not_negative : Value → Bool
is_not_negative x = on_number (λ n. not (below_zero n)) x

unfoldable pub is_byte_count : Value → Bool
is_byte_count x = is_not_negative x

unfoldable pub is_duration_msec : Value → Bool
is_duration_msec x = is_not_negative x

unfoldable pub is_subfeed_position : Value → Bool
is_subfeed_position x = is_not_negative x

unfoldable pub is_message_count : Value → Bool
is_message_count x = is_not_negative x

unfoldable pub is_error_message : Value → Bool
is_error_message x = on_text (λ s. ltb (text_length s) 1000) x

unfoldable pub is_channel_label : Value → Bool
is_channel_label x =
    on_text
      (λ s.
        every (λ c. is_alphanumeric c || (c == b'_') || (c == b'-') || (c == b'.')) (codes s)
        && between 4 160 (length (codes s)))
      x

unfoldable pub is_feed_name : Value → Bool
is_feed_name x = on_text (λ s. ltb 0 (text_length s) && leb (text_length s) 100) x

unfoldable pub is_subfeed_watch_name : Value → Bool
is_subfeed_watch_name x = on_text (λ s. ltb 0 (text_length s)) x
