-- ===== src/Ir/Meta.antt =====
-- Instruction::getMetadata, Instruction::setMetadata, and the numbers that the passes keep there:
-- FixOverlappedBBs::getHexMetadataFromIns and the functions over it.
use bin2llvm.Base.{
  ℕ, ◌≡◌, refl, ◌<◌, ◌^◌, Bool, true, false, List, [], ◌∷◌, arith, Option, none, some,
  if◌then◌else◌,
}
use bin2llvm.Base.Abort.{◌>>=◌}
use bin2llvm.Hex.{Text, hex, strtoll16}
use bin2llvm.Hex.RoundTrip.{strtoll16-hex}
use bin2llvm.Ir.{
  Kind, kind_eq, Metadata, Inst, Block, Function, bb_pc_start, bb_pc_end, ins_curr_pc,
}

unfoldable pub lookup_kind : Kind → Metadata → Option Text
lookup_kind k [] = none
lookup_kind k ((j, t) ∷ m) = if kind_eq j k then some t else lookup_kind k m

unfoldable pub insert_kind : Kind → Text → Metadata → Metadata
insert_kind k t [] = (k, t) ∷ []
insert_kind k t ((j, u) ∷ m) = if kind_eq j k then (k, t) ∷ m else (j, u) ∷ insert_kind k t m

unfoldable pub get_metadata : Inst → Kind → Option Text
unfolding lookup_kind
get_metadata i k = lookup_kind k i.meta

unfoldable pub set_metadata : Inst → Kind → Text → Inst
unfolding insert_kind
set_metadata i k t = record i { meta = insert_kind k t i.meta }

-- Whether getMetadata finds a node.
unfoldable pub has_metadata : Inst → Kind → Bool
unfolding get_metadata
has_metadata i k = elim (get_metadata i k) [ none ↦ false | some _ ↦ true ]

-- `none` where the node is missing, and the assertion fails.
unfoldable pub get_hex_metadata_from_ins : Inst → Kind → Option ℕ
unfolding get_metadata strtoll16
get_hex_metadata_from_ins i k = do t ← get_metadata i k; some (strtoll16 t)

-- The first instruction of the entry block; both may be missing.
unfoldable pub front_inst : List Inst → Option Inst
front_inst [] = none
front_inst (i ∷ is) = some i

unfoldable pub entry_block : List Block → Option Block
entry_block [] = none
entry_block (b ∷ bs) = some b

unfoldable pub get_hex_metadata_from_func : Function → Kind → Option ℕ
unfolding front_inst entry_block get_hex_metadata_from_ins
get_hex_metadata_from_func f k = do
  b ← entry_block f.blocks
  i ← front_inst b.insts
  get_hex_metadata_from_ins i k

unfoldable pub get_pc_start_of_func : Function → Option ℕ
unfolding get_hex_metadata_from_func
get_pc_start_of_func f = get_hex_metadata_from_func f bb_pc_start

unfoldable pub get_pc_end_of_func : Function → Option ℕ
unfolding get_hex_metadata_from_func
get_pc_end_of_func f = get_hex_metadata_from_func f bb_pc_end

unfoldable pub get_current_pc_of_ins : Inst → Option ℕ
unfolding get_hex_metadata_from_ins
get_current_pc_of_ins i = get_hex_metadata_from_ins i ins_curr_pc

unfoldable pub get_bb_start : Inst → Option ℕ
unfolding get_hex_metadata_from_ins
get_bb_start i = get_hex_metadata_from_ins i bb_pc_start

lookup_kind-insert_kind :
    (k j : Kind) (t : Text) (m : Metadata)
    → lookup_kind j (insert_kind k t m) ≡ (if kind_eq k j then some t else lookup_kind j m)
unfolding lookup_kind insert_kind
lookup_kind-insert_kind k j t [] = refl
lookup_kind-insert_kind k j t ((i, u) ∷ m) = ground (arith, lookup_kind-insert_kind k j t m)

pub get_metadata-set_metadata :
    (i : Inst) (k j : Kind) (t : Text)
    → get_metadata (set_metadata i k t) j ≡ (if kind_eq k j then some t else get_metadata i j)
unfolding get_metadata set_metadata
get_metadata-set_metadata i k j t = lookup_kind-insert_kind k j t i.meta

pub has_metadata-set_metadata :
    (i : Inst) (k j : Kind) (t : Text)
    → has_metadata (set_metadata i k t) j ≡ (if kind_eq k j then true else has_metadata i j)
unfolding has_metadata
has_metadata-set_metadata i k j t = ground (arith, get_metadata-set_metadata i k j t)

-- A number below 2^63 that a pass writes with `hex` is the number that a later pass reads, and the
-- other metadata stay.
pub get_hex-set_metadata :
    (i : Inst) (k j : Kind) (v : ℕ)
    → v < 2 ^ 63
    → get_hex_metadata_from_ins (set_metadata i k (hex v)) j
      ≡ (if kind_eq k j then some v else get_hex_metadata_from_ins i j)
unfolding get_hex_metadata_from_ins
get_hex-set_metadata i k j v h =
    ground (arith, get_metadata-set_metadata i k j (hex v), strtoll16-hex v h)

-- A node that is there can be read.
pub get_hex_of_has :
    (i : Inst) (k : Kind)
    → has_metadata i k ≡ true
    → (v : ℕ) × (get_hex_metadata_from_ins i k ≡ some v)
unfolding get_hex_metadata_from_ins has_metadata
get_hex_of_has i k h = go (get_metadata i k) refl h
  where
    go :
        (o : Option Text)
        → get_metadata i k ≡ o
        → has_metadata i k ≡ true
        → (v : ℕ) × (get_hex_metadata_from_ins i k ≡ some v)
    go none e h = cc
    go (some t) e h = (strtoll16 t, rw e)

pub has_of_get_hex :
    (i : Inst) (k : Kind) (v : ℕ) → get_hex_metadata_from_ins i k ≡ some v → has_metadata i k ≡ true
unfolding get_hex_metadata_from_ins has_metadata
has_of_get_hex i k v h = ground arith
