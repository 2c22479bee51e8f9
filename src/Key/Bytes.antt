-- ===== src/Key/Bytes.antt =====
-- The byte form of a key: Key::dump and Key(const char*) of lib/util/key.cpp.
use mathlib.Core.List.{append_assoc}
use arbore_experiment.Base.{
  ℕ, zero, suc, ◌≡◌, ◌<◌, refl, ap, List, [], ◌∷◌, ◌++◌, length, drop, drop-append, All, arith, ◌∙◌,
  ◌*◌,
}
use arbore_experiment.Key.{Key, IsKey, nlen}
use arbore_experiment.Netutil.{Read, got, ◌>>=◌, dump32, read32}
use arbore_experiment.Netutil.RoundTrip.{read32-dump32, drop-dump32}

-- dump: the words in the order of the array, each in network byte order.
unfoldable pub dump_key : Key → List ℕ
dump_key [] = []
dump_key (w ∷ ws) = dump32 w ++ dump_key ws

-- The loop of Key(const char*) over the words.
unfoldable pub read_words : ℕ → List ℕ → Read Key
read_words zero buff = got []
read_words (suc n) buff = do w ← read32 buff; ws ← read_words n (drop 4 buff); got (w ∷ ws)

unfoldable pub read_key : List ℕ → Read Key
read_key buff = read_words nlen buff

pub read_words-dump_key :
    (ws : Key) (rest : List ℕ)
    → All (λ w. w < 4294967296) ws
    → read_words (length ws) (dump_key ws ++ rest) ≡ got ws
unfolding read_words dump_key
read_words-dump_key [] rest h = refl
read_words-dump_key (w ∷ ws) rest h =
    rw
      (
        append_assoc (dump32 w) (dump_key ws) rest,
        read32-dump32 w (dump_key ws ++ rest) h.0,
        drop-dump32 w (dump_key ws ++ rest),
        read_words-dump_key ws rest h.1,
      )
      refl

pub read_key-dump_key : (k : Key) (rest : List ℕ) → IsKey k → read_key (dump_key k ++ rest) ≡ got k
unfolding read_key
read_key-dump_key k rest h = rw (← h.sized) (read_words-dump_key k rest h.words)

pub length-dump_key : (ws : Key) → length (dump_key ws) ≡ 4 * length ws
unfolding dump_key dump32
length-dump_key [] = refl
length-dump_key (w ∷ ws) = omega (arith, length-dump_key ws)

-- Key::size bytes.
pub drop-dump_key : (k : Key) (rest : List ℕ) → IsKey k → drop 20 (dump_key k ++ rest) ≡ rest
drop-dump_key k rest h =
    let e : 20 ≡ length (dump_key k) = omega (arith, length-dump_key k, h.sized) in
    ap (λ n. drop n (dump_key k ++ rest)) e ∙ drop-append (dump_key k) rest
