-- ===== src/Ffi/Minify/Safe.antt =====
-- `minify_in_place` of cjson-rs-ffi/src/convert.rs and the bounds of its buffer.
use cjson_rs.Common.{
  ℕ, zero, suc, ◌+◌, ◌≤◌, ◌<◌, Bool, true, false, ◌||◌, not, some, [], ◌∷◌, Bytes, ◌≡◌, ◌≢◌, refl,
  sym, ◌∙◌, ap, arith, ◌==◌, ltb, if◌then◌else◌, length, get_elem?, Bool-cases, inl, inr,
}
use cjson_rs.Error.{Result, ok, ◌>>=◌}
use cjson_rs.Ffi.Minify.{
  Pointers, load, set, store, copy_byte, skip_bytes, copy_string, copy_unless_end, skip_line,
  skip_block, minify_byte, minify_loop, minify_in_place,
}

length-set : (buf : Bytes) (i b : ℕ) → length (set buf i b) ≡ length buf
length-set [] i b = refl
length-set (c ∷ buf) zero b = refl
length-set (c ∷ buf) (suc i) b = ap suc (length-set buf i b)

get_elem?-set : (buf : Bytes) (i j b : ℕ) → i ≢ j → get_elem? (set buf i b) j ≡ get_elem? buf j
get_elem?-set [] i j b ne = refl
get_elem?-set (c ∷ buf) zero zero b ne = absurd (ne refl)
get_elem?-set (c ∷ buf) zero (suc j) b ne = refl
get_elem?-set (c ∷ buf) (suc i) zero b ne = refl
get_elem?-set (c ∷ buf) (suc i) (suc j) b ne = get_elem?-set buf i j b λ e. ne (ap suc e)

elem_below : (buf : Bytes) (i : ℕ) → i < length buf → (b : ℕ) × (get_elem? buf i ≡ some b)
elem_below [] i h = absurd (omega arith)
elem_below (c ∷ buf) zero h = (c, refl)
elem_below (c ∷ buf) (suc i) h = elem_below buf i (omega arith)

elem_size : (buf : Bytes) (i b : ℕ) → get_elem? buf i ≡ some b → i < length buf
elem_size [] i b e = cc
elem_size (c ∷ buf) zero b e = omega arith
elem_size (c ∷ buf) (suc i) b e = let ih = elem_size buf i b e in omega arith

load-some : (buf : Bytes) (i b : ℕ) → get_elem? buf i ≡ some b → load buf i ≡ ok b
unfolding load
load-some buf i b e = rw (load, e)

module _ (start : Bytes) (end : ℕ) (nul : get_elem? start end ≡ some 0) where
  -- The write pointer is not ahead of the read pointer, and this is not ahead of the NUL; from there on
  -- the buffer is as at the start.
  record Inside (m : Pointers) : Type 0 where
    behind : m.write ≤ m.read
    ahead : m.read ≤ end
    size : length m.buf ≡ length start
    rest : (i : ℕ) → end ≤ i → get_elem? m.buf i ≡ get_elem? start i

  -- a run that ends inside, and that has read so many bytes at least
  record Moves (m : Pointers) (least : ℕ) (run : Result Pointers) : Type 0 where
    after : Pointers
    returns : run ≡ ok after
    inside : Inside after
    further : m.read + least ≤ after.read

  record Loaded (buf : Bytes) (i : ℕ) : Type 0 where
    byte : ℕ
    runs : load buf i ≡ ok byte
    holds : get_elem? buf i ≡ some byte

  loaded : (m : Pointers) (i : ℕ) → Inside m → i ≤ end → Loaded m.buf i
  loaded m i k h =
      let (b, e) = elem_below m.buf i (omega (arith, elem_size start end 0 nul, k.size)) in
      record { byte = b; runs = load-some m.buf i b e; holds = e }

  -- a byte that is not 0 is in front of the NUL
  in_front :
      (m : Pointers) (i : ℕ)
      → Inside m
      → i ≤ end
      → (l : Loaded m.buf i) → (l.byte == 0) ≡ false
      → i < end
  in_front m i k h l ne = elim (Bool-cases (i == end)) [
    | inl y ↦
        let e : some l.byte ≡ some 0 =
          sym l.holds ∙ ap (get_elem? m.buf) (ground arith) ∙ k.rest end (omega arith) ∙ nul in
        absurd (ground arith)
    | inr n ↦ ground arith
  ]

  skips : (m : Pointers) (n : ℕ) → Inside m → m.read + n ≤ end → Inside (skip_bytes n m)
  skips m n k h = record {
    behind = let b = k.behind in omega arith;
    ahead = h;
    size = k.size;
    rest = k.rest;
  }

  record Copied (m : Pointers) : Type 0 where
    after : Pointers
    returns : copy_byte m ≡ ok after
    inside : Inside after
    further : after.read ≡ m.read + 1

  copies : (m : Pointers) → Inside m → m.read < end → Copied m
  unfolding copy_byte store
  copies m k h =
      let l = loaded m m.read k (omega arith) in
      let b = k.behind in
      let fits : ltb m.write (length m.buf) ≡ true =
        let s = elem_size start end 0 nul in let z = k.size in ground arith in
      record {
        after = record { buf = set m.buf m.write l.byte; read = m.read + 1; write = m.write + 1 };
        returns = rw l.runs (rw fits refl);
        inside = record {
          behind = omega arith;
          ahead = omega arith;
          size = length-set m.buf m.write l.byte ∙ k.size;
          rest = λ i g. get_elem?-set m.buf m.write i l.byte (λ e. omega (arith, e)) ∙ k.rest i g;
        };
        further = refl;
      }

  stays : (m : Pointers) → Inside m → (run : Result Pointers) → run ≡ ok m → Moves m 0 run
  stays m k run e = record { after = m; returns = e; inside = k; further = omega arith }

  line-Moves : (f : ℕ) (m : Pointers) → Inside m → end < f + m.read → Moves m 0 (skip_line f m)
  unfolding skip_line
  line-Moves zero m k h = absurd (let a = k.ahead in omega arith)
  line-Moves (suc f) m k h =
      let l = loaded m m.read k k.ahead in
      elim (Bool-cases (l.byte == 0 || l.byte == b'\n')) [
        | inl y ↦ stays m k _ (rw l.runs (rw y refl))
        | inr n ↦
            let s =
              skips m 1 k (let q = in_front m m.read k k.ahead l (ground arith) in omega arith) in
            let r = line-Moves f (skip_bytes 1 m) s (omega arith) in
            record {
              after = r.after;
              returns = rw l.runs (rw n r.returns);
              inside = r.inside;
              further = omega (arith, r.further);
            }
      ]

  -- a line comment begins with a byte that it skips
  slash-Moves :
      (f : ℕ) (m : Pointers) (k : Inside m) (l : Loaded m.buf m.read)
      → (l.byte == 0 || l.byte == b'\n') ≡ false
      → end < f + m.read
      → Moves m 1 (skip_line f m)
  unfolding skip_line
  slash-Moves zero m k l n h =
      absurd (let q = in_front m m.read k k.ahead l (ground arith) in omega arith)
  slash-Moves (suc f) m k l n h =
      let q = in_front m m.read k k.ahead l (ground arith) in
      let r = line-Moves f (skip_bytes 1 m) (skips m 1 k (omega arith)) (omega arith) in
      record {
        after = r.after;
        returns = rw l.runs (rw n r.returns);
        inside = r.inside;
        further = omega (arith, r.further);
      }

  block-Moves : (f : ℕ) (m : Pointers) → Inside m → end < f + m.read → Moves m 0 (skip_block f m)
  unfolding skip_block
  block-Moves zero m k h = absurd (let a = k.ahead in omega arith)
  block-Moves (suc f) m k h =
      let l = loaded m m.read k k.ahead in
      elim (Bool-cases (l.byte == 0)) [
        | inl y ↦ stays m k _ (rw l.runs (rw y refl))
        | inr n ↦
            let q = in_front m m.read k k.ahead l n in
            let next : (w : Bool)
                → w ≡ false
                → Moves m 0 (if w then ok (skip_bytes 2 m) else skip_block f (skip_bytes 1 m)) =
              λ w e.
                let r = block-Moves f (skip_bytes 1 m) (skips m 1 k (omega arith)) (omega arith) in
                record {
                  after = r.after;
                  returns = rw e r.returns;
                  inside = r.inside;
                  further = omega (arith, r.further);
                } in
            elim (Bool-cases (l.byte == b'*')) [
              | inl star ↦
                  let l' = loaded m (m.read + 1) k (omega arith) in
                  elim (Bool-cases (l'.byte == b'/')) [
                    | inl slash ↦
                        let q' = in_front m (m.read + 1) k (omega arith) l' (ground arith) in
                        record {
                          after = skip_bytes 2 m;
                          returns = rw l.runs (rw n (rw star (rw l'.runs (rw slash refl))));
                          inside = skips m 2 k (omega arith);
                          further = omega arith;
                        }
                    | inr not_slash ↦
                        let r = next false refl in
                        record {
                          after = r.after;
                          returns =
                              rw l.runs (rw n (rw star (rw l'.runs (rw not_slash r.returns))));
                          inside = r.inside;
                          further = r.further;
                        }
                  ]
              | inr not_star ↦
                  let r = next false refl in
                  record {
                    after = r.after;
                    returns = rw l.runs (rw n (rw not_star r.returns));
                    inside = r.inside;
                    further = r.further;
                  }
            ]
      ]

  -- the byte behind a backslash goes with it, unless it is the end
  pair-Moves :
      (m : Pointers) (k : Inside m) (l : Loaded m.buf m.read)
      → (l.byte == 0) ≡ false
      → (pair : Bool) × ((if l.byte == b'\\'
            then (load m.buf (m.read + 1) >>= λ n. ok (not (n == 0)))
            else ok false)
          ≡ ok pair)
        × (pair ≡ true → m.read + 1 < end)
  pair-Moves m k l n =
      let q = in_front m m.read k k.ahead l n in
      elim (Bool-cases (l.byte == b'\\')) [
        | inl y ↦
            let l' = loaded m (m.read + 1) k (omega arith) in
            (
              not (l'.byte == 0),
              rw y (rw l'.runs refl),
              λ e. in_front m (m.read + 1) k (omega arith) l' (ground arith),
            )
        | inr z ↦ (false, rw z refl, λ e. absurd (ground arith))
      ]

  string-Moves : (f : ℕ) (m : Pointers) → Inside m → end < f + m.read → Moves m 0 (copy_string f m)
  unfolding copy_string
  string-Moves zero m k h = absurd (let a = k.ahead in omega arith)
  string-Moves (suc f) m k h =
      let l = loaded m m.read k k.ahead in
      elim (Bool-cases (l.byte == 0 || l.byte == b'"')) [
        | inl y ↦ stays m k _ (rw l.runs (rw y refl))
        | inr n ↦
            let ne : (l.byte == 0) ≡ false = ground arith in
            let c = copies m k (in_front m m.read k k.ahead l ne) in
            let (pair, runs, room) = pair-Moves m k l ne in
            elim (Bool-cases pair) [
              | inl y ↦
                  let c' = copies c.after c.inside (omega (arith, c.further, room y)) in
                  let r =
                    string-Moves f c'.after c'.inside (omega (arith, c.further, c'.further)) in
                  record {
                    after = r.after;
                    returns =
                        rw l.runs (rw n (rw runs (rw c.returns (rw y (rw c'.returns r.returns)))));
                    inside = r.inside;
                    further = omega (arith, c.further, c'.further, r.further);
                  }
              | inr z ↦
                  let r = string-Moves f c.after c.inside (omega (arith, c.further)) in
                  record {
                    after = r.after;
                    returns = rw l.runs (rw n (rw runs (rw c.returns (rw z r.returns))));
                    inside = r.inside;
                    further = omega (arith, c.further, r.further);
                  }
            ]
      ]

  unless_end-Moves : (m : Pointers) → Inside m → Moves m 0 (copy_unless_end m)
  unfolding copy_unless_end
  unless_end-Moves m k =
      let l = loaded m m.read k k.ahead in
      elim (Bool-cases (l.byte == 0)) [
        | inl y ↦ stays m k _ (rw l.runs (rw y refl))
        | inr n ↦
            let c = copies m k (in_front m m.read k k.ahead l n) in
            record {
              after = c.after;
              returns = rw l.runs (rw n c.returns);
              inside = c.inside;
              further = omega (arith, c.further);
            }
      ]

  -- a byte that is not 0
  byte-Moves :
      (f : ℕ) (m : Pointers) (k : Inside m) (l : Loaded m.buf m.read)
      → (l.byte == 0) ≡ false
      → end < f + m.read
      → Moves m 1 (minify_byte f l.byte m)
  unfolding minify_byte
  byte-Moves f m k l ne h =
      let q = in_front m m.read k k.ahead l ne in
      let c = copies m k q in
      elim (Bool-cases
        (l.byte == b' ' || (l.byte == b'\t' || (l.byte == b'\n' || l.byte == b'\r')))) [
          | inl y ↦ record {
            after = skip_bytes 1 m;
            returns = rw y refl;
            inside = skips m 1 k (omega arith);
            further = omega arith;
          }
          | inr n ↦ elim (Bool-cases (l.byte == b'"')) [
            | inl quote ↦
                let s = string-Moves f c.after c.inside (omega (arith, c.further)) in
                let u = unless_end-Moves s.after s.inside in
                record {
                  after = u.after;
                  returns = rw n (rw quote (rw c.returns (rw s.returns u.returns)));
                  inside = u.inside;
                  further = omega (arith, c.further, s.further, u.further);
                }
            | inr not_quote ↦ elim (Bool-cases (l.byte == b'/')) [
              | inr not_slash ↦ record {
                after = c.after;
                returns = rw n (rw not_quote (rw not_slash c.returns));
                inside = c.inside;
                further = omega (arith, c.further);
              }
              | inl slash ↦
                  let l' = loaded m (m.read + 1) k (omega arith) in
                  elim (Bool-cases (l'.byte == b'/')) [
                    | inl line ↦
                        let r = slash-Moves f m k l (ground arith) h in
                        record {
                          after = r.after;
                          returns = rw n (rw not_quote (rw slash (rw l'.runs (rw line r.returns))));
                          inside = r.inside;
                          further = r.further;
                        }
                    | inr not_line ↦ elim (Bool-cases (l'.byte == b'*')) [
                      | inl star ↦
                          let q' = in_front m (m.read + 1) k (omega arith) l' (ground arith) in
                          let r =
                            block-Moves f (skip_bytes 2 m) (skips m 2 k (omega arith))
                              (omega arith) in
                          record {
                            after = r.after;
                            returns = rw n (
                                rw not_quote
                                  (rw slash (rw l'.runs (rw not_line (rw star r.returns)))));
                            inside = r.inside;
                            further = omega (arith, r.further);
                          }
                      | inr not_star ↦ record {
                        after = c.after;
                        returns = rw n (
                            rw not_quote
                              (rw slash (rw l'.runs (rw not_line (rw not_star c.returns)))));
                        inside = c.inside;
                        further = omega (arith, c.further);
                      }
                    ]
                  ]
            ]
          ]
        ]

  -- The loop returns a buffer of the same size, with all behind the NUL as at the start.
  loop_ok :
      (f : ℕ) (m : Pointers)
      → Inside m
      → suc end < f + m.read
      → (after : Bytes) × (minify_loop f m ≡ ok after)
        × (length after ≡ length start)
        × ((i : ℕ) → end < i → get_elem? after i ≡ get_elem? start i)
  unfolding minify_loop store
  loop_ok zero m k h = absurd (let a = k.ahead in omega arith)
  loop_ok (suc f) m k h =
      let l = loaded m m.read k k.ahead in
      let b = k.behind in
      let a = k.ahead in
      elim (Bool-cases (l.byte == 0)) [
        | inl y ↦
            let fits : ltb m.write (length m.buf) ≡ true =
              let s = elem_size start end 0 nul in let z = k.size in ground arith in
            (
              set m.buf m.write 0,
              rw l.runs (rw y (rw fits refl)),
              length-set m.buf m.write 0 ∙ k.size,
              λ i g.
                  get_elem?-set m.buf m.write i 0 (λ e. omega (arith, e)) ∙ k.rest i (omega arith),
            )
        | inr n ↦
            let r = byte-Moves f m k l n (omega arith) in
            let (after, returns, size, rest) =
              loop_ok f r.after r.inside (omega (arith, r.further)) in
            (after, rw l.runs (rw n (rw r.returns returns)), size, rest)
      ]

  -- On a buffer with a NUL at some index, `minify_in_place` ends and reads and writes inside of the
  -- buffer only; the buffer keeps its size, and what is behind the NUL stays.
  pub minify_in_place-inside :
      (after : Bytes) × (minify_in_place start ≡ ok after)
      × (length after ≡ length start)
      × ((i : ℕ) → end < i → get_elem? after i ≡ get_elem? start i)
  unfolding minify_in_place
  minify_in_place-inside =
      loop_ok (suc (length start)) (record { buf = start; read = 0; write = 0 })
        (record { behind = omega arith; ahead = omega arith; size = refl; rest = λ i g. refl })
        (omega (arith, elem_size start end 0 nul))
