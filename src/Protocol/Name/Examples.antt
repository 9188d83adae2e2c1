-- ===== src/Protocol/Name/Examples.antt =====
-- Runs of the name codec, and its theorems at concrete inputs.
use mathlib.Core.Path.{subst}
use border_dns.Prelude.{
  ℕ, ◌≤◌, ◌≡◌, ◌≢◌, refl, List, [], ◌∷◌, ◌++◌, length, true, arith, sym, ◌⊎◌, inl, inr,
}
use border_dns.Types.Error.{Result, ok, err, pointer_loop}
use border_dns.Protocol.Wire.{
  WireReader, new, read_u8, read_bytes, peek_u8, set_pos, write_u8, write_bytes,
}
use border_dns.Protocol.Wire.Laws.{advance}
use border_dns.Protocol.Wire.Bounds.{InBounds}
use border_dns.Protocol.Name.{
  DomainName, from_labels, collect_labels, check_label_count, push_end, labels, labels_from,
  to_wire, write_wire_uncompressed, write_labels, parent, is_suffix_of, read_name,
  read_name_with_depth, labels_loop, read_label, read_pointer, classify, join_suffix, push_suffix,
}
use border_dns.Protocol.Name.Valid.{IsValid}
use border_dns.Protocol.Name.RoundTrip.{read_name-to_wire}
use border_dns.Protocol.Name.Decode.{read_name-IsValid}
use border_dns.Protocol.Name.Termination.{Returns, labels_loop_enough}
use border_dns.Protocol.Name.Pointers.{reader_at, PointsTo, read_name_circle}
use border_dns.Protocol.Name.Build.{from_labels-labels, nonempty}
use border_dns.Protocol.Name.Hierarchy.{
  tail, labels-parent, is_suffix_of-labels, is_suffix_of_boundaries,
}

-- ab.c
abbrev ab_c : DomainName
ab_c = record { buf = 97 ∷ 98 ∷ 99 ∷ []; ends = 2 ∷ 3 ∷ [] }

abbrev just_c : DomainName
just_c = record { buf = 99 ∷ []; ends = 1 ∷ [] }

ab_c-IsValid : IsValid ab_c
ab_c-IsValid = record { rising = omega arith; short = omega arith }

just_c-IsValid : IsValid just_c
just_c-IsValid = record { rising = omega arith; short = omega arith }

-- The message of RFC 1035's example in small: `c` at 0, and `ab` with a pointer to it at 3.
abbrev message : List ℕ
message = 1 ∷ 99 ∷ 0 ∷ 2 ∷ 97 ∷ 98 ∷ 0xC0 ∷ 0 ∷ []

read_compressed : read_name message (reader_at message 3) ≡ ok (ab_c, reader_at message 8)
unfolding read_name read_name_with_depth labels_loop read_label read_pointer classify join_suffix
    push_suffix push_end read_u8 read_bytes peek_u8 set_pos new
read_compressed = refl

read_name-IsValid_example :
    IsValid ab_c × (message ≡ message) × (3 ≤ 8) × InBounds (reader_at message 8)
read_name-IsValid_example =
    read_name-IsValid message (reader_at message 3) (reader_at message 8) ab_c (omega arith)
      read_compressed

read_name-to_wire_example :
    read_name [] (new (to_wire ab_c))
    ≡ ok (ab_c, advance (length (to_wire ab_c)) (new (to_wire ab_c)))
unfolding new to_wire write_wire_uncompressed write_labels write_u8 write_bytes
read_name-to_wire_example = read_name-to_wire ab_c [] (new (to_wire ab_c)) [] ab_c-IsValid refl

-- Two pointers, at 0 and at 2, that lead to one another.
abbrev knot : List ℕ
knot = 0xC0 ∷ 2 ∷ 0xC0 ∷ 0 ∷ []

abbrev Knot : ℕ → Type 0
Knot offset = (offset ≡ 0) ⊎ (offset ≡ 2)

knot_first : PointsTo knot 0 2
knot_first = record {
  byte = 0xC0;
  byte2 = 2;
  rest = 0xC0 ∷ 0 ∷ [];
  here = refl;
  marked = omega arith;
  leads = refl;
}

knot_second : PointsTo knot 2 0
knot_second = record {
  byte = 0xC0;
  byte2 = 0;
  rest = [];
  here = refl;
  marked = omega arith;
  leads = refl;
}

knot_closed : (offset : ℕ) → Knot offset → (target : ℕ) × PointsTo knot offset target × Knot target
knot_closed offset (inl e) = (2, subst (λ o. PointsTo knot o 2) (sym e) knot_first, inr refl)
knot_closed offset (inr e) = (0, subst (λ o. PointsTo knot o 0) (sym e) knot_second, inl refl)

read_name_circle_example :
    (last : ℕ) × (read_name knot (reader_at knot 2) ≡ err (pointer_loop last 64))
read_name_circle_example = read_name_circle knot Knot knot_closed 2 (inr refl)

abbrev no_pointers : ℕ → Result DomainName
no_pointers offset = err (pointer_loop offset 0)

labels_loop_enough_example :
    Returns no_pointers message [] []
      (reader_at (1 ∷ 99 ∷ 0 ∷ []) 0)
      (labels_loop no_pointers 3 message [] [] (reader_at (1 ∷ 99 ∷ 0 ∷ []) 0))
    × ((x : Result (DomainName × WireReader))
        → Returns no_pointers message [] [] (reader_at (1 ∷ 99 ∷ 0 ∷ []) 0) x
        → labels_loop no_pointers 3 message [] [] (reader_at (1 ∷ 99 ∷ 0 ∷ []) 0) ≡ x)
labels_loop_enough_example =
    labels_loop_enough no_pointers message 3 [] [] (reader_at (1 ∷ 99 ∷ 0 ∷ []) 0) (omega arith)

abbrev given_labels : List (List ℕ)
given_labels = (97 ∷ 98 ∷ []) ∷ [] ∷ (99 ∷ []) ∷ []

from_labels_run : from_labels given_labels ≡ ok ab_c
unfolding from_labels collect_labels check_label_count push_end
from_labels_run = refl

from_labels-labels_example : IsValid ab_c × (labels ab_c ≡ nonempty given_labels) × (2 ≤ 128)
from_labels-labels_example = from_labels-labels given_labels ab_c from_labels_run

labels-parent_example : IsValid (parent ab_c) × (labels (parent ab_c) ≡ tail (labels ab_c))
labels-parent_example = labels-parent ab_c ab_c-IsValid

is_suffix_of-labels_example : is_suffix_of just_c ab_c ≡ true
unfolding labels labels_from
is_suffix_of-labels_example =
    is_suffix_of-labels just_c ab_c ((97 ∷ 98 ∷ []) ∷ []) just_c-IsValid ab_c-IsValid refl

is_suffix_of_boundaries_example :
    (is_suffix_of
        (record { buf = 97 ∷ 98 ∷ []; ends = 2 ∷ [] })
        (record { buf = 97 ∷ 98 ∷ []; ends = 1 ∷ 2 ∷ [] })
      ≡ true)
    × ((front : List (List ℕ))
        → labels (record { buf = 97 ∷ 98 ∷ []; ends = 1 ∷ 2 ∷ [] })
          ≢ front ++ labels (record { buf = 97 ∷ 98 ∷ []; ends = 2 ∷ [] }))
is_suffix_of_boundaries_example = is_suffix_of_boundaries 97 98 [] []
