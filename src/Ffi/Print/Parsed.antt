-- ===== src/Ffi/Print/Parsed.antt =====
-- `cJSON_Parse` and then `cJSON_PrintUnformatted` of cjson-rs-ffi/src/lib.rs.
use cjson_rs.Common.{
  ℕ, suc, ◌≤◌, some, List, [], ◌∷◌, ◌++◌, Bytes, ◌≡◌, ◌≢◌, refl, ◌∙◌, arith, subst, length,
}
use cjson_rs.Ffi.Alloc.{Double, alloc}
use cjson_rs.Ffi.Memory.{Ptr, null, Memory, ok, update}
use cjson_rs.Ffi.Memory.Fresh.{Fresh, FreshHead, fresh_head, Fresh-frame}
use cjson_rs.Ffi.Memory.Runs.{not_null, guard-ok}
use cjson_rs.Ffi.Parse.{until_nul, cjson_parse}
use cjson_rs.Ffi.Parse.Entry.{cjson_parse-Lexes}
use cjson_rs.Ffi.Print.{print_text, print_impl, cjson_print_unformatted}
use cjson_rs.Ffi.Text.{strip_utf8_bom}
use cjson_rs.Ffi.Trees.{cjson_to_value}
use cjson_rs.Ffi.Trees.Cells.{content_cells}
use cjson_rs.Ffi.Trees.Child.{nonempty}
use cjson_rs.Ffi.Trees.Read.{cut_value, rounds_of, cjson_to_value-Content}
use cjson_rs.Ffi.Trees.Whole.{value_to_cjson-Filled, left-Fresh}
use cjson_rs.Number.{Float}
use cjson_rs.Parser.Grammar.{emit, height}
use cjson_rs.Serialiser.{serialise}
use cjson_rs.Serialiser.Normal.{HasText}
use cjson_rs.Text.{as_bytes}
use cjson_rs.Tokeniser.TokenGrammar.{Lexes}
use cjson_rs.Value.{Value}

module _ {F : Type 0} (text_f64 : Float F) (f64 : Double F) (rounds : ℕ) where
  alloc-ok :
      (m : Memory F) (b : Ptr) (rest : List Ptr)
      → m.answers ≡ b ∷ rest
      → Fresh m (b ∷ rest)
      → alloc m ≡ ok b (record m { answers = rest })
  unfolding alloc
  alloc-ok m b rest e fr =
      let s = fresh_head fr in rw e (rw (not_null s.ne_null) (rw (s.free, s.no_text) refl))

  -- The text of a value read from a tree goes to the next address.
  print_unformatted-ok :
      (m : Memory F) (a b : Ptr) (rest : List Ptr) (v : Value F)
      → a ≢ null
      → cjson_to_value rounds a m ≡ ok (some v) m
      → m.answers ≡ b ∷ rest
      → Fresh m (b ∷ rest)
      → cjson_print_unformatted text_f64 rounds a m
        ≡ ok b (record m {
          answers = rest;
          texts = update m.texts b (some (as_bytes (serialise text_f64 v) ++ 0 ∷ []));
        })
  unfolding cjson_print_unformatted print_impl print_text
  print_unformatted-ok m a b rest v nn reads e fr = guard-ok m null _ (
      rw (not_null nn) (
        rw reads
          (rw (alloc-ok m b rest e fr) (rw (not_null (FreshHead.ne_null (fresh_head fr))) refl))))

  module _ (value : ℕ) (m : Memory F) (text s : Bytes) (v : Value F) (a : Ptr) (bs : List Ptr)
      (ne_null : value ≢ null) (at : m.texts value ≡ some text) (c_string : until_nul text ≡ some s)
      (lexes : Lexes text_f64 (strip_utf8_bom s).0 (emit v)) (shallow : height v ≤ 1000)
      (has_text : HasText v) (answers : m.answers ≡ a ∷ bs) (fresh : Fresh m (a ∷ bs))
      (enough : suc (content_cells v) ≤ length bs) (fuel : rounds_of v ≤ rounds) where
    -- If a C string, behind a byte order mark, is the text of a value nested 1000 deep at most, and the
    -- allocator serves as many addresses that are not in use as the tree takes and one more, then
    -- `cJSON_Parse` of it returns the first address and `cJSON_PrintUnformatted` of that an address with
    -- the text that the serialiser writes for the value, with each string and key cut at its first NUL,
    -- and a NUL.
    pub print_unformatted-parse :
        (after : Memory F) × (b : Ptr) × (printed : Memory F) × (cjson_parse text_f64 f64 rounds
            value m
          ≡ ok a after)
        × (cjson_print_unformatted text_f64 rounds a after ≡ ok b printed)
        × (printed.texts b ≡ some (as_bytes (serialise text_f64 (cut_value v)) ++ 0 ∷ []))
    print_unformatted-parse =
        let m₀ = record m { last_error = null } in
        let fr = Fresh-frame fresh (λ p i. refl) (λ p i. refl) in
        let h = value_to_cjson-Filled f64 rounds v m₀ a bs answers fr (omega arith) in
        let nn = FreshHead.ne_null (fresh_head fresh) in
        let (b, rest, e) = nonempty h.left (omega (arith, h.size)) in
        (
          h.after,
          b,
          record h.after {
            answers = rest;
            texts =
                update h.after.texts b
                  (some (as_bytes (serialise text_f64 (cut_value v)) ++ 0 ∷ []));
          },
          cjson_parse-Lexes text_f64 f64 rounds value m text s v ne_null at c_string lexes shallow
              ∙ guard-ok m₀ null _ h.returns,
          print_unformatted-ok h.after a b rest (cut_value v) nn
              (cjson_to_value-Content v rounds h.after a nn h.holds h.content has_text fuel)
              (h.answers ∙ e)
              (subst (Fresh h.after) e (left-Fresh f64 rounds v m₀ a bs answers fr (omega arith))),
          ground arith,
        )
