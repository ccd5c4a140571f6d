-- ===== src/Ketama/Servers/Holds.antt =====
-- The array of servers, told by the list of those that were added.
use ketamarouter.Base.{
  ℕ, zero, suc, ◌+◌, ◌-◌, ◌*◌, ◌%◌, ◌^◌, ◌≤◌, ◌<◌, ◌≡◌, refl, ap, false, Option, none, some, List,
  [], ◌∷◌, ◌++◌, arith, ltb, leb, ◌==◌, ◌>>=◌, ◌⊎◌, inl, inr, Bool-cases, Bytes, get_elem?,
  get_elem?-eq-none, get_elem?-eq-get_or, u32, u64, length, length-append, length-replicate, take,
  set, replicate,
}
use ketamarouter.Base.Int.{ℤ, pos, negsuc}
use ketamarouter.Ketama.State.{ServerInfo, Ketama, ketama_new}
use ketamarouter.Ketama.Servers.{
  server_addr, realloc, init_servers, expand_servers, put_server, add_server, get_server_address,
}

abbrev pub no_server : ServerInfo
no_server = record { addr = []; memory = 0 }

-- The sum of the weights.
abbrev pub total_memory : List ServerInfo → ℕ
total_memory [] = 0
total_memory (s ∷ infos) = s.memory + total_memory infos

-- The array: the servers, and `n` cells that nothing was written to.
abbrev pub filled : List ServerInfo → ℕ → List (Option ServerInfo)
filled [] n = replicate n none
filled (s ∷ infos) n = some s ∷ filled infos n

-- `infos` are the servers that were added.
pub record Holds (k : Ketama) (infos : List ServerInfo) : Type 0 where
  pub counted : k.numservers ≡ length infos
  pub fits : length infos ≤ k.maxservers
  pub tight : k.maxservers ≤ 2 * length infos
  pub stored :
      ((k.servers ≡ none) × (k.maxservers ≡ 0))
      ⊎ ((k.servers ≡ some (filled infos (k.maxservers - length infos))) × (0 < k.maxservers))
  pub summed : k.memory ≡ total_memory infos % u64

pub ketama_new-Holds : Holds ketama_new []
unfolding ketama_new
ketama_new-Holds = record {
  counted = refl;
  fits = omega arith;
  tight = omega arith;
  stored = inl (refl, refl);
  summed = refl;
}

length-filled : (infos : List ServerInfo) (n : ℕ) → length (filled infos n) ≡ length infos + n
length-filled [] n = omega (arith, length-replicate {0} {A = Option ServerInfo} n none)
length-filled (s ∷ infos) n = omega (arith, length-filled infos n)

pub total_memory-append :
    (xs ys : List ServerInfo) → total_memory (xs ++ ys) ≡ total_memory xs + total_memory ys
total_memory-append [] ys = omega arith
total_memory-append (x ∷ xs) ys = omega (arith, total_memory-append xs ys)

take-filled :
    (infos : List ServerInfo) (m : ℕ) → length infos ≤ m → take m (filled infos 0) ≡ filled infos 0
take-filled [] zero le = refl
take-filled [] (suc m) le = refl
take-filled (s ∷ infos) zero le = absurd (omega arith)
take-filled (s ∷ infos) (suc m) le = ap (λ l. some s ∷ l) (take-filled infos m (omega arith))

filled-append :
    (infos : List ServerInfo) (n : ℕ) → filled infos 0 ++ replicate n none ≡ filled infos n
filled-append [] n = refl
filled-append (s ∷ infos) n = ap (λ l. some s ∷ l) (filled-append infos n)

realloc-filled :
    (infos : List ServerInfo) (m : ℕ)
    → length infos ≤ m
    → realloc m (filled infos 0) ≡ filled infos (m - length infos)
realloc-filled infos m le =
    let e : m - length (filled infos 0) ≡ m - length infos = omega (arith, length-filled infos 0) in
    rw (take-filled infos m le, e, filled-append infos (m - length infos))

set-filled :
    (infos : List ServerInfo) (s : ServerInfo) (n : ℕ)
    → set (filled infos (suc n)) (length infos) (some s) ≡ filled (infos ++ s ∷ []) n
set-filled [] s n = refl
set-filled (x ∷ infos) s n = ap (λ l. some x ∷ l) (set-filled infos s n)

get_elem?-filled :
    (infos : List ServerInfo) (n i : ℕ)
    → i < length infos
    → get_elem? (filled infos n) i ≡ (do s ← get_elem? infos i; some (some s))
get_elem?-filled [] n i lt = absurd (omega arith)
get_elem?-filled (s ∷ infos) n zero lt = refl
get_elem?-filled (s ∷ infos) n (suc i) lt = get_elem?-filled infos n i (omega arith)

-- Room for one more server: the array has a free cell at `numservers`.
record HasRoom (k : Ketama) (infos : List ServerInfo) : Type 0 where
  counted : k.numservers ≡ length infos
  fits : length infos < k.maxservers
  tight : k.maxservers ≤ 2 * length infos + 1
  stored : k.servers ≡ some (filled infos (k.maxservers - length infos))
  summed : k.memory ≡ total_memory infos % u64

first_server :
    (k : Ketama) (infos : List ServerInfo)
    → k.servers ≡ none
    → k.maxservers ≡ 0
    → Holds k infos
    → HasRoom (expand_servers (init_servers k)) infos
unfolding expand_servers init_servers
first_server k [] null empty h = ground arith
first_server k (s ∷ infos) null empty h = absurd (omega (arith, h.fits))

full_servers :
    (k : Ketama) (infos : List ServerInfo)
    → length infos < 2 ^ 30
    → k.servers ≡ some (filled infos 0)
    → k.maxservers ≡ length infos
    → 0 < k.maxservers
    → Holds k infos
    → HasRoom (expand_servers (init_servers k)) infos
unfolding expand_servers init_servers
full_servers k infos small held full some_max h =
    ground (arith, realloc-filled infos (k.maxservers * 2 % u32))

expand_servers-HasRoom :
    (k : Ketama) (infos : List ServerInfo)
    → length infos < 2 ^ 30
    → Holds k infos
    → HasRoom (expand_servers (init_servers k)) infos
expand_servers-HasRoom k infos small h = elim h.stored [
  | inl (null, empty) ↦ first_server k infos null empty h
  | inr (held, some_max) ↦ elim (Bool-cases (k.maxservers == length infos)) [
    | inl full ↦
        let e : k.maxservers ≡ length infos = ground arith in
        let z : k.maxservers - length infos ≡ 0 = omega arith in
        full_servers k infos small (rw z at held) e some_max h
    | inr room ↦ unfold expand_servers init_servers in ground (arith, h.fits, h.counted)
  ]
]

stored_server : Ketama → List ServerInfo → ServerInfo → Ketama
stored_server k infos s = record k {
  servers = some (filled (infos ++ s ∷ []) (k.maxservers - length infos - 1));
  numservers = length infos + 1;
  memory = total_memory (infos ++ s ∷ []) % u64;
}

put_server-eq-stored_server :
    (k : Ketama) (infos : List ServerInfo) (s : ServerInfo)
    → length infos < 2 ^ 30
    → HasRoom k infos
    → put_server k s ≡ some (stored_server k infos s)
unfolding put_server stored_server
put_server-eq-stored_server k infos s small h =
    let n : ℕ = k.maxservers - length infos - 1 in
    let e : k.maxservers - length infos ≡ suc n = omega (arith, h.fits) in
    ground (
      arith,
      e,
      set-filled infos s n,
      length-filled infos (suc n),
      total_memory-append infos (s ∷ []),
    )

stored_server-Holds :
    (k : Ketama) (infos : List ServerInfo) (s : ServerInfo)
    → HasRoom k infos
    → Holds (stored_server k infos s) (infos ++ s ∷ [])
unfolding stored_server
stored_server-Holds k infos s h = ground (arith, length-append infos (s ∷ []))

-- `Ketama_add_server` on a list of fewer than 2 ^ 30 servers never fails its assertion and writes
-- inside the array. It adds one server at the end, under the address that `snprintf` leaves and with
-- the given weight, and keeps the earlier ones.
pub add_server-Holds :
    (k : Ketama) (infos : List ServerInfo) (addr : Bytes) (port : ℤ) (weight : ℕ)
    → length infos < 2 ^ 30
    → Holds k infos
    → (k' : Ketama) × (add_server k addr port weight ≡ some k')
      × Holds k' (infos ++ record { addr = server_addr addr port; memory = weight } ∷ [])
unfolding add_server
add_server-Holds k infos addr port weight small h =
    let room = expand_servers-HasRoom k infos small h in
    let info : ServerInfo = record { addr = server_addr addr port; memory = weight } in
    let no_abort : ltb k.maxservers k.numservers ≡ false = ground (arith, h.fits, h.counted) in
    (
      _,
      rw no_abort (put_server-eq-stored_server _ infos info small room),
      stored_server-Holds _ infos info room,
    )

-- The address at an index, and the empty text where there is no such server.
abbrev pub address_of : List ServerInfo → ℤ → Bytes
address_of infos (negsuc _) = []
address_of infos (pos i) = elim (get_elem? infos i) [ none ↦ [] | some s ↦ s.addr ]

-- `Ketama_get_server_address` reads only entries that were written. It gives the address of the
-- server at a valid index, and the empty text at every other `int`, a negative one included.
pub get_server_address_lem :
    (k : Ketama) (infos : List ServerInfo) (i : ℤ)
    → Holds k infos
    → get_server_address k i ≡ some (address_of infos i)
unfolding get_server_address
get_server_address_lem k infos (negsuc n) h = refl
get_server_address_lem k infos (pos i) h = elim (Bool-cases (leb k.numservers i)) [
  | inl out ↦ rw (out, address_of, get_elem?-eq-none infos i (ground (arith, h.counted)))
  | inr inside ↦ rw inside (elim h.stored [
    | inl (null, empty) ↦ absurd (ground (arith, h.fits, h.counted))
    | inr (held, some_max) ↦
        let lt : i < length infos = ground (arith, h.counted) in
        rw (
          held,
          get_elem?-filled infos _ i lt,
          get_elem?-eq-get_or infos i no_server lt,
          address_of,
        )
  ])
]
