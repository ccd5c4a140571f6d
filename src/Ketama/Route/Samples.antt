-- ===== src/Ketama/Route/Samples.antt =====
-- Two rings over a small digest, and a `qsort` by insertion.
use mathlib.Core.List.{Permᴰ}
use mathlib.Core.List.Permᴰ
use ketamarouter.Base.{
  ℕ, zero, suc, ◌+◌, ◌-◌, ◌*◌, ◌/◌, ◌%◌, ◌≤◌, ◌≡◌, inl, inr, refl, true, none, some, List, [], ◌∷◌,
  arith, leb, if◌then◌else◌, Bytes, codes, length, Bool-cases,
}
use ketamarouter.Base.Int.{leb_ℤ, pos}
use ketamarouter.Base.Decimal.{print_int}
use ketamarouter.Ketama.State.{Mcs, ServerInfo, Ketama}
use ketamarouter.Ketama.Servers.{server_addr}
use ketamarouter.Ketama.Servers.Holds.{Holds, filled, total_memory}
use ketamarouter.Ketama.Continuum.{
  le_word, hashi, point_key, compare_mcs, digest_points, server_points, create_continuum,
}
use ketamarouter.Ketama.Continuum.Points.{ring_points}
use ketamarouter.Ketama.Continuum.Fits.{Rounds}
use ketamarouter.Ketama.Continuum.Sorted.{InOrder, Qsort, IsBuilt, points_of}
use ketamarouter.Ketama.Lookup.{get_server_ordinal, search_loop, search_round, compare_points}
use ketamarouter.Ketama.Lookup.Owner.{IsRing, owner, rank}

-- `qsort` by insertion.
unfoldable insert : Mcs → List Mcs → List Mcs
insert c [] = c ∷ []
insert c (d ∷ cells) = if leb c.point d.point then c ∷ d ∷ cells else d ∷ insert c cells

unfoldable pub insertion : List Mcs → List Mcs
unfolding insert
insertion [] = []
insertion (c ∷ cells) = insert c (insertion cells)

insert-perm : (c : Mcs) (cells : List Mcs) → Permᴰ (insert c cells) (c ∷ cells)
unfolding insert
insert-perm c [] = Permᴰ.refl _
insert-perm c (d ∷ cells) = elim (Bool-cases (leb c.point d.point)) [
  | inl le ↦ rw le (Permᴰ.refl _)
  | inr gt ↦ rw gt (Permᴰ.trans (Permᴰ.cons refl (insert-perm c cells)) (Permᴰ.swap refl refl))
]

pub insertion-perm : (cells : List Mcs) → Permᴰ (insertion cells) cells
unfolding insertion
insertion-perm [] = Permᴰ.nil
insertion-perm (c ∷ cells) =
    Permᴰ.trans (insert-perm c (insertion cells)) (Permᴰ.cons refl (insertion-perm cells))

compare_le : (c d : Mcs) → c.point ≤ d.point → leb_ℤ (compare_mcs c d) (pos 0) ≡ true
unfolding compare_mcs
compare_le c d h = ground arith

insert-InOrder : (c : Mcs) (cells : List Mcs) → InOrder cells → InOrder (insert c cells)
unfolding insert
insert-InOrder c [] h = tt
insert-InOrder c (d ∷ []) h = elim (Bool-cases (leb c.point d.point)) [
  | inl le ↦ rw le (compare_le c d (ground arith), tt)
  | inr gt ↦ rw gt (compare_le d c (ground arith), tt)
]
insert-InOrder c (d ∷ e ∷ cells) h = elim (Bool-cases (leb c.point d.point)) [
  | inl le ↦ rw le (compare_le c d (ground arith), h)
  | inr gt ↦
      let later = insert-InOrder c (e ∷ cells) h.1 in
      elim (Bool-cases (leb c.point e.point)) [
        | inl le ↦ rw (gt, le) (compare_le d c (ground arith), (compare_le c e (ground arith), h.1))
        | inr gt' ↦ rw (gt, gt') (h.0, rw gt' at later)
      ]
]

pub insertion-InOrder : (cells : List Mcs) → InOrder (insertion cells)
unfolding insertion
insertion-InOrder [] = tt
insertion-InOrder (c ∷ cells) = insert-InOrder c (insertion cells) (insertion-InOrder cells)

abbrev pub by_insertion : Qsort
by_insertion = record { sort = insertion; perm = insertion-perm; in_order = insertion-InOrder }

-- A digest of sixteen bytes that tells short keys apart.
unfoldable mix : ℕ → Bytes → ℕ
mix h [] = h
mix h (c ∷ s) = mix ((h * 31 + c) % 65521) s

unfoldable digest_byte : ℕ → ℕ → ℕ
digest_byte h i = (h * (2 * i + 3) + h / (i + 1)) % 256

unfoldable bytes_from : ℕ → ℕ → ℕ → List ℕ
bytes_from h zero i = []
bytes_from h (suc n) i = digest_byte h i ∷ bytes_from h n (i + 1)

unfoldable pub small_digest : Bytes → List ℕ
unfolding mix digest_byte bytes_from
small_digest s = bytes_from (mix 0 s) 16 0

-- A share of one round for each server of average weight.
abbrev pub one_round : ℕ → ℕ → ℕ → ℕ
one_round w total n = w * n / total

quotient_le : (a t : ℕ) → a / t * t ≤ a
quotient_le a t = grind arith

pub one_round-Rounds : Rounds one_round
one_round-Rounds w total n some_memory le small = omega (arith, quotient_le (w * n) total)

abbrev pub server_a : ServerInfo
server_a = record { addr = server_addr (codes "127.0.0.1") (pos 6379); memory = 100 }

abbrev pub server_b : ServerInfo
server_b = record { addr = server_addr (codes "127.0.0.2") (pos 6379); memory = 100 }

abbrev pub server_c : ServerInfo
server_c = record { addr = server_addr (codes "127.0.0.3") (pos 6379); memory = 100 }

abbrev pub two : List ServerInfo
two = server_a ∷ server_b ∷ []

abbrev pub three : List ServerInfo
three = server_a ∷ server_b ∷ server_c ∷ []

unfoldable pub program : Unit {0}
unfolding small_digest server_addr print_int insertion le_word hashi point_key digest_points
    server_points ring_points create_continuum get_server_ordinal search_loop search_round
    compare_points rank owner
program = tt

-- The objects after two and after three calls of `Ketama_add_server`.
abbrev pub holding : ℕ → List ServerInfo → Ketama
holding n infos = record {
  numpoints = 0;
  numservers = length infos;
  maxservers = n;
  memory = total_memory infos;
  continuum = none;
  servers = some (filled infos (n - length infos));
}

pub two-Holds : Holds (holding 2 two) two
two-Holds = record {
  counted = refl;
  fits = omega arith;
  tight = omega arith;
  stored = inr (refl, omega arith);
  summed = refl;
}

pub three-Holds : Holds (holding 4 three) three
three-Holds = record {
  counted = refl;
  fits = omega arith;
  tight = omega arith;
  stored = inr (refl, omega arith);
  summed = refl;
}

abbrev pub cells_of_two : List Mcs
cells_of_two = insertion (points_of small_digest one_round by_insertion two)

abbrev pub cells_of_three : List Mcs
cells_of_three = insertion (points_of small_digest one_round by_insertion three)

abbrev pub ring_of_two : Ketama
ring_of_two = record (holding 2 two) { numpoints = 8; continuum = some cells_of_two }

abbrev pub ring_of_three : Ketama
ring_of_three = record (holding 4 three) { numpoints = 12; continuum = some cells_of_three }

pub two-IsRing : IsRing ring_of_two cells_of_two
unfolding program
two-IsRing = record { built = refl; counted = refl; ascends = omega arith; small = omega arith }

pub three-IsRing : IsRing ring_of_three cells_of_three
unfolding program
three-IsRing = record { built = refl; counted = refl; ascends = omega arith; small = omega arith }

pub two-IsBuilt : IsBuilt small_digest one_round by_insertion two ring_of_two cells_of_two
unfolding program
two-IsBuilt = record {
  is_ring = two-IsRing;
  holds = record {
    counted = refl;
    fits = omega arith;
    tight = omega arith;
    stored = inr (refl, omega arith);
    summed = refl;
  };
  perm = insertion-perm _;
  owned = omega arith;
}

pub three-IsBuilt : IsBuilt small_digest one_round by_insertion three ring_of_three cells_of_three
unfolding program
three-IsBuilt = record {
  is_ring = three-IsRing;
  holds = record {
    counted = refl;
    fits = omega arith;
    tight = omega arith;
    stored = inr (refl, omega arith);
    summed = refl;
  };
  perm = insertion-perm _;
  owned = omega arith;
}
