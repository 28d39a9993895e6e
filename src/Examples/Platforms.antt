-- ===== src/Examples/Platforms.antt =====
-- A 64-bit machine with either byte order.
use icelander.Prelude.{ℕ, ◌+◌, ◌-◌, ◌^◌, ◌≤◌, arith}
use icelander.Bytes.{Platform, Endian, little, big}

pub sum_fits : (c n : ℕ) → n ≤ c + n
sum_fits c n = omega arith

pub own_fits : (c n : ℕ) → n ≤ n
own_fits c n = omega arith

abbrev pub machine : Endian → Platform
machine order = record {
  endian = order;
  grow = λ c n. c + n;
  grow_fits = sum_fits;
  reserved = λ c n. n;
  reserved_fits = own_fits;
  string_max = 2 ^ 63 - 1;
}

abbrev pub little_machine : Platform
little_machine = machine little

abbrev pub big_machine : Platform
big_machine = machine big
