-- ===== src/Socket/Address.antt =====
-- Addresses in src/netter/base_socket.cpp: `SetAddr`, `GetBindAddr`, and the text of an address that
-- `_AcceptNewSocket` makes in the same way.
use netter.Common.{
  ℕ, ◌+◌, ◌-◌, ◌*◌, ◌/◌, ◌%◌, ◌≤◌, ◌<◌, ◌^◌, ◌≡◌, refl, ap, ◌∙◌, List, [], ◌∷◌, ◌++◌, Option, none,
  some, length, arith, if◌then◌else◌, ltb, ◌==◌, length-append, append-nil, sym, Bool-cases, inl,
  inr, ltb→lt, false,
}

-- The system's `inet_addr` and `gethostbyname`, on texts as their codes.
pub record Resolver : Type 0 where
  pub inet_addr : List ℕ → ℕ
  pub gethostbyname : List ℕ → Option ℕ

abbrev pub inaddr_none : ℕ
inaddr_none = 0xFFFFFFFF

-- `SetAddr(ip, port, pAddr)`: the address and the port.
unfoldable pub set_addr : Resolver → List ℕ → ℕ → ℕ × ℕ
set_addr net ip port =
    let parsed = net.inet_addr ip in
    if parsed == inaddr_none
    then elim (net.gethostbyname ip) [ none ↦ (inaddr_none, port) | some host ↦ (host, port) ]
    else (parsed, port)

-- `%d` of a number below 1000.
unfoldable pub octet : ℕ → List ℕ
octet n =
    if ltb n 10
    then (48 + n) ∷ []
    else if ltb n 100
    then (48 + n / 10) ∷ (48 + n % 10) ∷ []
    else (48 + n / 100) ∷ (48 + n / 10 % 10) ∷ (48 + n % 10) ∷ []

-- The format "%d.%d.%d.%d" of an address.
unfoldable pub dotted : ℕ → List ℕ
dotted ip =
    octet (ip / 2 ^ 24)
    ++ (b'.'
        ∷ (octet (ip / 2 ^ 16 % 256)
            ++ (b'.' ∷ (octet (ip / 2 ^ 8 % 256) ++ (b'.' ∷ octet (ip % 256))))))

-- `GetBindAddr(fd, bind_ip, bind_port)`, where `getsockname` gives `name`.
unfoldable pub get_bind_addr : ℕ × ℕ → List ℕ × ℕ
get_bind_addr name = (dotted name.0, name.1)

-- Reading a dotted address: what the numbers before the last dot make, the number after it, and the
-- rest of the text.
unfoldable pub read_dotted : ℕ → ℕ → List ℕ → ℕ
read_dotted high low [] = high * 256 + low
read_dotted high low (c ∷ cs) =
    if c == b'.'
    then read_dotted (high * 256 + low) 0 cs
    else read_dotted high (low * 10 + (c - 48)) cs

read_dotted-digit :
    (high low d : ℕ) (cs : List ℕ)
    → d < 10
    → read_dotted high low ((48 + d) ∷ cs) ≡ read_dotted high (low * 10 + d) cs
unfolding read_dotted
read_dotted-digit high low d cs h =
    rw (let z : (48 + d == b'.') ≡ false = ground arith in z)
      (ap (λ k. read_dotted high (low * 10 + k) cs) (omega arith))

read_dotted-octet :
    (high n : ℕ) (rest : List ℕ)
    → n < 256
    → read_dotted high 0 (octet n ++ rest) ≡ read_dotted high n rest
unfolding octet
read_dotted-octet high n rest h = elim (Bool-cases (ltb n 10)) [
  | inl one ↦ rw one (
      read_dotted-digit high 0 n rest (ltb→lt n 10 one)
      ∙ ap (λ k. read_dotted high k rest) (omega arith))
  | inr more ↦ elim (Bool-cases (ltb n 100)) [
    | inl two ↦
        rw (more, two)
          (let low = ltb→lt n 100 two in
            read_dotted-digit high 0 (n / 10) ((48 + n % 10) ∷ rest) (omega (arith, low))
            ∙ read_dotted-digit high (0 * 10 + n / 10) (n % 10) rest (omega arith)
            ∙ ap (λ k. read_dotted high k rest) (omega arith))
    | inr three ↦
        rw (more, three)
          (read_dotted-digit high 0 (n / 100) ((48 + n / 10 % 10) ∷ (48 + n % 10) ∷ rest)
              (omega arith)
            ∙ read_dotted-digit high (0 * 10 + n / 100) (n / 10 % 10) ((48 + n % 10) ∷ rest)
                (omega arith)
            ∙ read_dotted-digit high ((0 * 10 + n / 100) * 10 + n / 10 % 10) (n % 10) rest
                (omega arith)
            ∙ ap (λ k. read_dotted high k rest) (omega arith))
  ]
]

length-octet : (n : ℕ) → length (octet n) ≤ 3
unfolding octet
length-octet n = ground arith

read_dotted_end : (high low : ℕ) → read_dotted high low [] ≡ high * 256 + low
unfolding read_dotted
read_dotted_end high low = refl

-- One number of a dotted address, and the dot after it.
read_dotted-part :
    (high n : ℕ) (rest : List ℕ)
    → n < 256
    → read_dotted high 0 (octet n ++ (b'.' ∷ rest)) ≡ read_dotted (high * 256 + n) 0 rest
unfolding read_dotted
read_dotted-part high n rest h = read_dotted-octet high n (b'.' ∷ rest) h

length-part : (n : ℕ) (rest : List ℕ) → length (octet n ++ (b'.' ∷ rest)) ≤ 4 + length rest
length-part n rest = omega (arith, length-append (octet n) (b'.' ∷ rest), length-octet n)

-- The text of any 32-bit address is at most 15 bytes, so that with its end it fits the 64 bytes of
-- `ip_str`; and read as a dotted address it is the address again.
pub dotted-fits :
    (ip : ℕ) → ip < 2 ^ 32 → (length (dotted ip) ≤ 15) × (read_dotted 0 0 (dotted ip) ≡ ip)
unfolding dotted
dotted-fits ip h =
    let a = ip / 2 ^ 24 in
    let b = ip / 2 ^ 16 % 256 in
    let c = ip / 2 ^ 8 % 256 in
    let d = ip % 256 in
    let last = octet d in
    let third = octet c ++ (b'.' ∷ last) in
    let second = octet b ++ (b'.' ∷ third) in
    (
      omega (arith, length-part a second, length-part b third, length-part c last, length-octet d),
      read_dotted-part 0 a second (omega (arith, h))
          ∙ read_dotted-part (0 * 256 + a) b third (omega arith)
          ∙ read_dotted-part ((0 * 256 + a) * 256 + b) c last (omega arith)
          ∙ ap (read_dotted (((0 * 256 + a) * 256 + b) * 256 + c) 0) (sym (append-nil last))
          ∙ read_dotted-octet (((0 * 256 + a) * 256 + b) * 256 + c) d [] (omega arith)
          ∙ read_dotted_end (((0 * 256 + a) * 256 + b) * 256 + c) d
          ∙ (let e : (((0 * 256 + a) * 256 + b) * 256 + c) * 256 + d ≡ ip = omega (arith, h) in e),
    )
