-- ===== src/Base/Buffer/Endian.antt =====
-- The integers of Buffer.h: appended, prepended and read in network order. An integer is its bit
-- pattern, below 256 ^ size. The host is little-endian, so `htonl` reverses the bytes.
pub mod RoundTrip
use native.Mathlib.Nat.{pow-suc}
use mathlib.Core.List.{reverse-cons, reverse-reverse}
use lib_net_toy.Prelude.{
  ℕ, zero, suc, ◌+◌, ◌*◌, ◌/◌, ◌%◌, ◌^◌, ◌<◌, ◌≡◌, refl, sym, ap, ◌∙◌, List, [], ◌∷◌, ◌++◌, reverse,
  length, length-append, leb, Result, ok, ◌>>=◌, ◌>>◌, assert, read_range, arith,
}
use lib_net_toy.Base.Buffer.{
  Buffer, readable_bytes, peek, append, prepend, retrieve_int32, retrieve_int16, retrieve_int8,
}

-- The bytes in memory of an integer of `n` bytes, and back.
pub host_bytes : ℕ → ℕ → List ℕ
host_bytes zero w = []
host_bytes (suc n) w = (w % 256) ∷ host_bytes n (w / 256)

pub of_host_bytes : List ℕ → ℕ
of_host_bytes [] = 0
of_host_bytes (d ∷ ds) = d + 256 * of_host_bytes ds

-- `htonl` at 4 and `htons` at 2; `ntohl` and `ntohs` are the same functions.
pub host_to_network : ℕ → ℕ → ℕ
unfolding host_bytes of_host_bytes
host_to_network n x = of_host_bytes (reverse (host_bytes n x))

pub network_to_host : ℕ → ℕ → ℕ
unfolding host_bytes of_host_bytes
network_to_host n x = of_host_bytes (reverse (host_bytes n x))

pub append_int32 : Buffer → ℕ → Result Buffer
append_int32 b x = append b (host_bytes 4 (host_to_network 4 x))

pub append_int16 : Buffer → ℕ → Result Buffer
append_int16 b x = append b (host_bytes 2 (host_to_network 2 x))

pub append_int8 : Buffer → ℕ → Result Buffer
append_int8 b x = append b (host_bytes 1 x)

pub prepend_int32 : Buffer → ℕ → Result Buffer
prepend_int32 b x = prepend b (host_bytes 4 (host_to_network 4 x))

pub prepend_int16 : Buffer → ℕ → Result Buffer
prepend_int16 b x = prepend b (host_bytes 2 (host_to_network 2 x))

pub prepend_int8 : Buffer → ℕ → Result Buffer
prepend_int8 b x = prepend b (host_bytes 1 x)

pub peek_int32 : Buffer → Result ℕ
peek_int32 b = do
  assert (leb 4 (readable_bytes b))
  be32 ← read_range b.buffer (peek b) 4
  ok (network_to_host 4 (of_host_bytes be32))

pub peek_int16 : Buffer → Result ℕ
peek_int16 b = do
  assert (leb 2 (readable_bytes b))
  be16 ← read_range b.buffer (peek b) 2
  ok (network_to_host 2 (of_host_bytes be16))

pub peek_int8 : Buffer → Result ℕ
peek_int8 b = do
  assert (leb 1 (readable_bytes b))
  x ← read_range b.buffer (peek b) 1
  ok (of_host_bytes x)

pub read_int32 : Buffer → Result (ℕ × Buffer)
unfolding peek_int32
read_int32 b = do result ← peek_int32 b; rest ← retrieve_int32 b; ok (result, rest)

pub read_int16 : Buffer → Result (ℕ × Buffer)
unfolding peek_int16
read_int16 b = do result ← peek_int16 b; rest ← retrieve_int16 b; ok (result, rest)

pub read_int8 : Buffer → Result (ℕ × Buffer)
unfolding peek_int8
read_int8 b = do result ← peek_int8 b; rest ← retrieve_int8 b; ok (result, rest)

-- The bytes on the wire: most significant first.
abbrev pub network_bytes : ℕ → ℕ → List ℕ
network_bytes n x = reverse (host_bytes n x)

abbrev pub AllBytes : List ℕ → Type 0
AllBytes [] = Unit {0}
AllBytes (d ∷ ds) = (d < 256) × AllBytes ds

pub of_host_bytes-host_bytes : (n w : ℕ) → w < 256 ^ n → of_host_bytes (host_bytes n w) ≡ w
unfolding of_host_bytes host_bytes
of_host_bytes-host_bytes zero w h = omega arith
of_host_bytes-host_bytes (suc n) w h =
    omega
      (arith, pow-suc 256 n, of_host_bytes-host_bytes n (w / 256) (omega (arith, pow-suc 256 n)))

pub host_bytes-of_host_bytes :
    (n : ℕ) (ds : List ℕ) → AllBytes ds → length ds ≡ n → host_bytes n (of_host_bytes ds) ≡ ds
unfolding of_host_bytes host_bytes
host_bytes-of_host_bytes zero [] a h = refl
host_bytes-of_host_bytes zero (d ∷ ds) a h = absurd (omega arith)
host_bytes-of_host_bytes (suc n) [] a h = absurd (omega arith)
host_bytes-of_host_bytes (suc n) (d ∷ ds) a h = ground (arith, host_bytes-of_host_bytes n ds a.1)

length-host_bytes : (n w : ℕ) → length (host_bytes n w) ≡ n
unfolding host_bytes
length-host_bytes zero w = refl
length-host_bytes (suc n) w = ap suc (length-host_bytes n (w / 256))

host_bytes-AllBytes : (n w : ℕ) → AllBytes (host_bytes n w)
unfolding host_bytes
host_bytes-AllBytes zero w = tt
host_bytes-AllBytes (suc n) w = (omega arith, host_bytes-AllBytes n (w / 256))

AllBytes-append : (xs ys : List ℕ) → AllBytes xs → AllBytes ys → AllBytes (xs ++ ys)
AllBytes-append [] ys a b = b
AllBytes-append (x ∷ xs) ys a b = (a.0, AllBytes-append xs ys a.1 b)

reverse-AllBytes : (xs : List ℕ) → AllBytes xs → AllBytes (reverse xs)
reverse-AllBytes [] a = tt
reverse-AllBytes (x ∷ xs) a =
    rw (reverse-cons x xs)
      (AllBytes-append (reverse xs) (x ∷ []) (reverse-AllBytes xs a.1) (a.0, tt))

length-reverse : (xs : List ℕ) → length (reverse xs) ≡ length xs
length-reverse [] = refl
length-reverse (x ∷ xs) =
    omega
      (arith, ap length (reverse-cons x xs), length-append (reverse xs) (x ∷ []), length-reverse xs)

pub length-network_bytes : (n x : ℕ) → length (network_bytes n x) ≡ n
length-network_bytes n x = length-reverse (host_bytes n x) ∙ length-host_bytes n x

-- `htonl` lays the bytes out in network order.
pub host_bytes-host_to_network : (n x : ℕ) → host_bytes n (host_to_network n x) ≡ network_bytes n x
unfolding host_to_network
host_bytes-host_to_network n x =
    host_bytes-of_host_bytes n (reverse (host_bytes n x))
      (reverse-AllBytes (host_bytes n x) (host_bytes-AllBytes n x)) (length-network_bytes n x)

-- `ntohl` reads them.
pub network_to_host-network_bytes :
    (n x : ℕ) → x < 256 ^ n → network_to_host n (of_host_bytes (network_bytes n x)) ≡ x
unfolding network_to_host
network_to_host-network_bytes n x h =
    ap (λ ds. of_host_bytes (reverse ds))
      (host_bytes-of_host_bytes n (reverse (host_bytes n x))
        (reverse-AllBytes (host_bytes n x) (host_bytes-AllBytes n x)) (length-network_bytes n x))
    ∙ ap of_host_bytes (reverse-reverse (host_bytes n x))
    ∙ of_host_bytes-host_bytes n x h
