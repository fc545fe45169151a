-- ===== src/Vm/Sbf/Decode.antt =====
-- The machine runs exactly the program that the bytes of an ELF file carry.
-- The code is crates/frychain-vm/src/sbf.rs.
use fry_chain.Words.Bytes.{le_bytes, from_le-le_bytes}
use fry_chain.Vm.Sbf.{SbfInstruction, decode, decode_all, parse_elf, or_minimal}
use fry_chain.Prelude.{
  ℕ, ◌+◌, ◌*◌, ◌/◌, ◌^◌, ◌<◌, ◌≡◌, ◌≢◌, refl, some, List, [], ◌∷◌, ◌++◌, map, arith, length, joined,
  drop-append, length-append, All, min, suc, ap, ◌∙◌, Option, none,
}

-- The wire format, eight bytes: the opcode, the two registers in one byte, and the offset and the
-- immediate in little-endian order.
abbrev pub encode : SbfInstruction → List ℕ
encode i = (i.opcode ∷ (i.dst + 16 * i.src) ∷ le_bytes 2 i.offset) ++ le_bytes 4 i.imm

pub record IsEncodable (i : SbfInstruction) : Type 0 where
  pub opcode_fits : i.opcode < 256
  pub dst_fits : i.dst < 16
  pub src_fits : i.src < 16
  pub offset_fits : i.offset < 2 ^ 16
  pub imm_fits : i.imm < 2 ^ 32

pub decode-encode :
    (i : SbfInstruction) (rest : List ℕ) → IsEncodable i → decode (encode i ++ rest) ≡ some i
unfolding decode
decode-encode i rest v = ground (arith, from_le-le_bytes 2 i.offset, from_le-le_bytes 4 i.imm)

-- The code of a program.
abbrev pub assemble : List SbfInstruction → List ℕ
assemble program = joined (map encode program)

length-encode : (i : SbfInstruction) → length (encode i) ≡ 8
length-encode i = refl

length-assemble : (program : List SbfInstruction) → length (assemble program) ≡ 8 * length program
length-assemble [] = refl
length-assemble (i ∷ program) =
    omega (arith, length-append (encode i) (assemble program), length-assemble program)

decode_all_round :
    (n : ℕ) (i : SbfInstruction) (rest : List ℕ)
    → IsEncodable i
    → decode_all (suc n) (encode i ++ rest) ≡ i ∷ decode_all n rest
unfolding decode_all
decode_all_round n i rest v =
    ap
      (λ (o : Option SbfInstruction). elim o [
        | none ↦ []
        | some instruction ↦ instruction ∷ decode_all n rest
      ])
      (decode-encode i rest v)

-- As many rounds as there are instructions; what follows them is not read.
decode_all-assemble :
    (program : List SbfInstruction) (rest : List ℕ)
    → All IsEncodable program
    → decode_all (length program) (assemble program ++ rest) ≡ program
unfolding decode_all
decode_all-assemble [] rest h = refl
decode_all-assemble (i ∷ program) rest h =
    decode_all_round (length program) i (assemble program ++ rest) h.0
    ∙ ap (◌∷◌ i) (decode_all-assemble program rest h.1)

or_minimal_nonempty : (program : List SbfInstruction) → program ≢ [] → or_minimal program ≡ program
unfolding or_minimal
or_minimal_nonempty [] h = absurd (h refl)
or_minimal_nonempty (i ∷ program) h = refl

-- A file of the four magic bytes, any other 60 bytes of header, the code of a program that is not
-- empty and whose fields fit, and fewer than eight further bytes, is read back as that program.
pub parse_elf-assemble :
    (header trailing : List ℕ) (program : List SbfInstruction)
    → length header ≡ 60
    → length trailing < 8
    → program ≢ []
    → All IsEncodable program
    → parse_elf ((0x7f ∷ b'E' ∷ b'L' ∷ b'F' ∷ header) ++ (assemble program ++ trailing))
      ≡ some program
unfolding parse_elf
parse_elf-assemble header trailing program hl ht hp hv =
    let magic : List ℕ = 0x7f ∷ b'E' ∷ b'L' ∷ b'F' ∷ header in
    let code = assemble program ++ trailing in
    let n : length code / 8 ≡ length program =
      omega (arith, length-append (assemble program) trailing, length-assemble program) in
    let len : min 64 (length (magic ++ code)) ≡ 64 = omega (arith, length-append magic code, hl) in
    rw
      (
        len,
        drop-append magic code 64 (omega arith),
        n,
        decode_all-assemble program trailing hv,
        or_minimal_nonempty program hp,
      )
      refl
