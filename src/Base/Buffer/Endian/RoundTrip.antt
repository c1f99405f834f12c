-- ===== src/Base/Buffer/Endian/RoundTrip.antt =====
-- What is appended or prepended as an integer is read back as that integer.
use lib_net_toy.Prelude.{
  append-nil, max_size, ◌+◌, ◌>>=◌, ℕ, ◌^◌, ◌≤◌, ◌<◌, ◌≡◌, ap, ◌∙◌, List, ◌++◌, length, take, drop,
  length-append, take-append_of_length, drop-append_of_length, ok, arith,
}
use lib_net_toy.Base.Buffer.Append.{append_lem, prepend_lem}
use lib_net_toy.Base.Buffer.Endian.{
  sym, of_host_bytes-host_bytes, host_bytes, host_bytes-host_to_network, read_int16, append_int16,
  append_int32, read_int8, prepend_int32, read_int32, network_bytes, length-network_bytes,
  network_to_host-network_bytes,
}
use lib_net_toy.Base.Buffer.{
  retrieve_int8, retrieve_int16, [], prependable_bytes, Buffer, retrieve_int32,
}
use lib_net_toy.Base.Buffer.IsValid.{
  Yields, IsValid, content, readable_bytes_lem, retrieve_lem, read_front,
}

-- The front of a content that begins with an integer's bytes.
module _ {b : Buffer} (n x : ℕ) (rest : List ℕ) (v : IsValid b)
    (c : content b ≡ network_bytes n x ++ rest) where
  fits : n ≤ length (content b)
  fits =
      omega (arith, ap length c, length-append (network_bytes n x) rest, length-network_bytes n x)

  front : take n (content b) ≡ network_bytes n x
  front =
      ap (take n) c ∙ take-append_of_length n (network_bytes n x) rest (length-network_bytes n x)

  behind : drop n (content b) ≡ rest
  behind =
      ap (drop n) c ∙ drop-append_of_length n (network_bytes n x) rest (length-network_bytes n x)

-- A content that begins with the four bytes of `x` is read as `x`, and the rest stays.
pub read_int32_lem :
    {b : Buffer} (x : ℕ) (rest : List ℕ)
    → IsValid b
    → x < 2 ^ 32
    → content b ≡ network_bytes 4 x ++ rest
    → (b' : Buffer) × (read_int32 b ≡ ok (x, b')) × IsValid b' × (content b' ≡ rest)
unfolding read_int32 retrieve_int32
read_int32_lem {b} x rest v h c =
    let (b', e, v', c') = retrieve_lem 4 v (fits 4 x rest v c) in
    (
      b',
      ground (
        arith,
        e,
        readable_bytes_lem v,
        fits 4 x rest v c,
        read_front 4 v,
        front 4 x rest v c,
        network_to_host-network_bytes 4 x,
      ),
      v',
      c' ∙ behind 4 x rest v c,
    )

pub read_int16_lem :
    {b : Buffer} (x : ℕ) (rest : List ℕ)
    → IsValid b
    → x < 2 ^ 16
    → content b ≡ network_bytes 2 x ++ rest
    → (b' : Buffer) × (read_int16 b ≡ ok (x, b')) × IsValid b' × (content b' ≡ rest)
unfolding read_int16 retrieve_int16
read_int16_lem {b} x rest v h c =
    let (b', e, v', c') = retrieve_lem 2 v (fits 2 x rest v c) in
    (
      b',
      ground (
        arith,
        e,
        readable_bytes_lem v,
        fits 2 x rest v c,
        read_front 2 v,
        front 2 x rest v c,
        network_to_host-network_bytes 2 x,
      ),
      v',
      c' ∙ behind 2 x rest v c,
    )

pub read_int8_lem :
    {b : Buffer} (x : ℕ) (rest : List ℕ)
    → IsValid b
    → x < 2 ^ 8
    → content b ≡ host_bytes 1 x ++ rest
    → (b' : Buffer) × (read_int8 b ≡ ok (x, b')) × IsValid b' × (content b' ≡ rest)
unfolding read_int8 retrieve_int8 host_bytes
read_int8_lem {b} x rest v h c =
    let (b', e, v', c') = retrieve_lem 1 v (fits 1 x rest v c) in
    (
      b',
      ground (
        arith,
        e,
        readable_bytes_lem v,
        fits 1 x rest v c,
        read_front 1 v,
        front 1 x rest v c,
        of_host_bytes-host_bytes 1 x,
      ),
      v',
      c' ∙ behind 1 x rest v c,
    )

-- Appending puts the bytes on the wire in network order.
pub append_int32_lem :
    {b : Buffer} (x : ℕ)
    → IsValid b
    → length b.buffer + 4 ≤ max_size
    → Yields (append_int32 b x) (content b ++ network_bytes 4 x)
unfolding append_int32
append_int32_lem x v h = rw (host_bytes-host_to_network 4 x) (
    let (b', e, v', c, l) =
      append_lem (network_bytes 4 x) v (omega (arith, length-network_bytes 4 x)) in
    (b', e, v', c))

pub append_int16_lem :
    {b : Buffer} (x : ℕ)
    → IsValid b
    → length b.buffer + 2 ≤ max_size
    → Yields (append_int16 b x) (content b ++ network_bytes 2 x)
unfolding append_int16
append_int16_lem x v h = rw (host_bytes-host_to_network 2 x) (
    let (b', e, v', c, l) =
      append_lem (network_bytes 2 x) v (omega (arith, length-network_bytes 2 x)) in
    (b', e, v', c))

pub prepend_int32_lem :
    {b : Buffer} (x : ℕ)
    → IsValid b
    → 4 ≤ prependable_bytes b
    → Yields (prepend_int32 b x) (network_bytes 4 x ++ content b)
unfolding prepend_int32
prepend_int32_lem x v h = rw (host_bytes-host_to_network 4 x) (
    let (b', e, v', c, k) =
      prepend_lem (network_bytes 4 x) v (omega (arith, length-network_bytes 4 x)) in
    (b', e, v', c))

-- An integer appended to an empty buffer is the next one read, and nothing is left behind it.
read_int32-append_int32 :
    {b : Buffer} (x : ℕ)
    → IsValid b
    → content b ≡ []
    → length b.buffer + 4 ≤ max_size
    → x < 2 ^ 32
    → (b' : Buffer) × ((append_int32 b x >>= read_int32) ≡ ok (x, b'))
      × IsValid b'
      × (content b' ≡ [])
read_int32-append_int32 {b} x v e small h =
    let (b₁, e₁, v₁, c₁) = append_int32_lem x v small in
    let (b₂, e₂, v₂, c₂) =
      read_int32_lem x [] v₁ h
        (c₁ ∙ ap (λ xs. xs ++ network_bytes 4 x) e ∙ sym (append-nil (network_bytes 4 x))) in
    (b₂, rw e₁ e₂, v₂, c₂)

-- A length prefix: an `int32_t` prepended to a message is read back first, and the message follows.
pub read_int32-prepend_int32 :
    {b : Buffer} (x : ℕ)
    → IsValid b
    → 4 ≤ prependable_bytes b
    → x < 2 ^ 32
    → (b' : Buffer) × ((prepend_int32 b x >>= read_int32) ≡ ok (x, b'))
      × IsValid b'
      × (content b' ≡ content b)
read_int32-prepend_int32 {b} x v room h =
    let (b₁, e₁, v₁, c₁) = prepend_int32_lem x v room in
    let (b₂, e₂, v₂, c₂) = read_int32_lem x (content b) v₁ h c₁ in (b₂, rw e₁ e₂, v₂, c₂)
