-- ===== src/Apdu/Response.antt =====
-- What `ResponseAPDU::decode` (include/utility/Apdu.hpp) makes of the bytes of a response.
use jubiter_sdk_c.Common.{
  ℕ, ◌+◌, ◌-◌, ◌≤◌, ◌<◌, ◌≡◌, ◌≢◌, refl, sym, leb, ltb, ltb→lt, Bool-cases, ◌⊎◌, inl, inr, true,
  false, some, List, [], ◌∷◌, ◌++◌, ◌==◌, length, length-append, get_elem?, get_elem?-append,
  get_elem?_in_range, take, drop, slice, slice_prefix, slice-append, take-append-drop, length-take,
  length-drop, ok, fail, fault, arith,
}
use jubiter_sdk_c.Gpc.Scp03.{returned_false}
use jubiter_sdk_c.Apdu.Format.{ResponseApdu, decode}

-- The bytes of a response with a MAC.
unfoldable pub response_bytes : ResponseApdu → List ℕ
response_bytes r = r.body ++ (r.cmac ++ (r.sw1 ∷ r.sw2 ∷ []))

pub length-response_bytes :
    (r : ResponseApdu) → length r.cmac ≡ 8 → length (response_bytes r) ≡ length r.body + 10
unfolding response_bytes
length-response_bytes r h = omega (
  arith,
  length-append r.body (r.cmac ++ (r.sw1 ∷ r.sw2 ∷ [])),
  length-append r.cmac (r.sw1 ∷ r.sw2 ∷ []),
)

-- The two bytes of the status stand behind the data and the MAC.
get_elem?-response_bytes :
    (r : ResponseApdu) (i k : ℕ)
    → length r.cmac ≡ 8
    → i ≡ length r.body + 8 + k
    → get_elem? (response_bytes r) i ≡ get_elem? (r.sw1 ∷ r.sw2 ∷ []) k
unfolding response_bytes
get_elem?-response_bytes r i k h e = rw (
  get_elem?-append r.body (r.cmac ++ (r.sw1 ∷ r.sw2 ∷ [])) i (8 + k) (omega arith),
  get_elem?-append r.cmac (r.sw1 ∷ r.sw2 ∷ []) (8 + k) k (omega arith),
)

slice-response_bytes :
    (r : ResponseApdu)
    → length r.cmac ≡ 8
    → (slice 0 (length r.body) (response_bytes r) ≡ some r.body)
      × (slice (length r.body) (length r.body + 8) (response_bytes r) ≡ some r.cmac)
unfolding response_bytes
slice-response_bytes r h = (
  slice_prefix (length r.body) r.body (r.cmac ++ (r.sw1 ∷ r.sw2 ∷ [])) refl,
  slice-append (length r.body) (length r.body + 8) r.body r.cmac (r.sw1 ∷ r.sw2 ∷ []) refl
      (omega arith),
)

-- A response with a MAC of 8 bytes is taken apart to its data, its MAC and its status.
pub decode-response_bytes :
    (r : ResponseApdu) → length r.cmac ≡ 8 → decode (response_bytes r) ≡ ok r
unfolding decode
decode-response_bytes r h =
    let size = length-response_bytes r h in
    let some_bytes : (length r.body + 10 == 0) ≡ false = ground arith in
    let with_mac : ltb (length r.body + 10) 8 ≡ false = ground arith in
    let no_status_only : (length r.body + 10 == 2) ≡ false = ground arith in
    let room : leb 10 (length r.body + 10) ≡ true = ground arith in
    let first = get_elem?-response_bytes r (length r.body + 10 - 2) 0 h (omega arith) in
    let second = get_elem?-response_bytes r (length r.body + 10 - 1) 1 h (omega arith) in
    let cut : length r.body + 10 - 2 - 8 ≡ length r.body = omega arith in
    let cut' : length r.body + 10 - 2 ≡ length r.body + 8 = omega arith in
    let parts = slice-response_bytes r h in
    rw
      (size, some_bytes, with_mac, first, second, no_status_only, room, cut, parts.0, cut', parts.1)

two_elems : (xs : List ℕ) → length xs ≡ 2 → (x : ℕ) × (y : ℕ) × (xs ≡ x ∷ y ∷ [])
two_elems [] h = absurd (omega arith)
two_elems (x ∷ []) h = absurd (omega arith)
two_elems (x ∷ y ∷ []) h = (x, y, refl)
two_elems (x ∷ y ∷ z ∷ xs) h = absurd (omega arith)

-- Ten bytes or more are a response with a MAC.
response_of :
    (raw : List ℕ)
    → 10 ≤ length raw
    → (r : ResponseApdu) × (length r.cmac ≡ 8) × (raw ≡ response_bytes r)
unfolding response_bytes
response_of raw h =
    let n = length raw - 10 in
    let rest = drop n raw in
    let size = length-drop n raw in
    let (x, y, e) = two_elems (drop 8 rest) (omega (arith, length-drop 8 rest)) in
    let halves = take-append-drop 8 rest in
    let r : ResponseApdu = record { body = take n raw; cmac = take 8 rest; sw1 = x; sw2 = y } in
    (r, omega (arith, length-take 8 rest), rw (sym e, halves) (sym (take-append-drop n raw)))

decode_short : (raw : List ℕ) → length raw < 8 → length raw ≢ 2 → decode raw ≡ fail returned_false
unfolding decode
decode_short raw short other = ground arith

decode_middle : (raw : List ℕ) → 8 ≤ length raw → length raw ≤ 9 → decode raw ≡ fault
unfolding decode
decode_middle raw h k =
    let (x, first) = get_elem?_in_range raw (length raw - 2) (omega arith) in
    let (y, second) = get_elem?_in_range raw (length raw - 1) (omega arith) in
    ground (arith, first, second)

-- `decode` by the number of bytes, other than the two of a status: fewer than 8 are refused, 8 and 9
-- are read before their start, and anything longer is a response with a MAC of 8 bytes.
pub decode_sizes :
    (raw : List ℕ)
    → length raw ≢ 2
    → ((length raw < 8) × (decode raw ≡ fail returned_false))
      ⊎ ((8 ≤ length raw) × (length raw ≤ 9) × (decode raw ≡ fault))
      ⊎ ((r : ResponseApdu) × (decode raw ≡ ok r) × (length r.cmac ≡ 8) × (raw ≡ response_bytes r))
decode_sizes raw other = elim (Bool-cases (ltb (length raw) 8)) [
  | inl short ↦ inl (ltb→lt _ _ short, decode_short raw (ltb→lt _ _ short) other)
  | inr no_short ↦ elim (Bool-cases (ltb (length raw) 10)) [
    | inl middle ↦
        inr (inl (ground arith, ground arith, decode_middle raw (ground arith) (ground arith)))
    | inr long ↦
        let (r, size, e) = response_of raw (ground arith) in
        inr (inr (r, rw e (decode-response_bytes r size), size, e))
  ]
]
