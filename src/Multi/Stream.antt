-- ===== src/Multi/Stream.antt =====
-- The server reads from a connection what its client sent.
use gorp.Prelude.{
  ℕ, suc, ◌≡◌, refl, ap, ◌∙◌, Bool, true, false, ◌&&◌, not, List, [], ◌∷◌, ◌++◌, Option, none, some,
  if◌then◌else◌, Bool-cases, inl, inr, ltb, is_empty, take, drop, take-append-drop, map,
}
use mathlib.Core.List.{append_assoc}
use gorp.Multi.{Conn, smaller, read_below, read}

-- What the client sent and the server has not read.
abbrev pub pending : Conn → List ℕ
pending c = if c.f then c.b ∷ c.input else c.input

abbrev pub and_more : List ℕ → Option (List ℕ × Conn) → Option (List ℕ × Conn)
and_more bytes none = none
and_more bytes (some (more, c)) = some (bytes ++ more, c)

abbrev pub and_reads :
    (Conn → Option (List ℕ × Conn)) → Option (List ℕ × Conn × Bool) → Option (List ℕ × Conn)
and_reads k none = none
and_reads k (some (bytes, c, ended)) = and_more bytes (k c)

-- Reads in turn, each with its room and with how many bytes have arrived, or its error: the bytes that
-- they give.
unfoldable pub reads : List (ℕ × Option ℕ) → Conn → Option (List ℕ × Conn)
unfolding read
reads [] c = some ([], c)
reads ((n, m) ∷ rest) c = and_reads (reads rest) (read n m c)

abbrev pub conn : ℕ → List ℕ → ℕ → Bool → Bool → Bool → Conn
conn id input b e f closed = record { id = id; input = input; b = b; e = e; f = f; closed = closed }

abbrev Gives : Conn → Option (List ℕ × Conn × Bool) → Type 0
Gives c o =
    (bytes : List ℕ) × (c' : Conn) × (ended : Bool) × (o ≡ some (bytes, c', ended))
    × (bytes ++ pending c' ≡ pending c)

first-Gives :
    (n : ℕ) (m : Option ℕ) (id : ℕ) (input : List ℕ) (b : ℕ) (e closed : Bool) (more : Bool)
    → (ltb 0 n && not e) ≡ more
    → Gives (conn id input b e true closed) (read (suc n) m (conn id input b e true closed))
unfolding read read_below
first-Gives n m id input b e closed false h =
    rw h (b ∷ [], conn id input b e false closed, e, refl, refl)
first-Gives n none id input b e closed true h =
    rw h (b ∷ [], conn id input b e false true, true, refl, refl)
first-Gives n (some m) id input b e closed true h =
    let left = drop (smaller n (suc m)) input in
    let whole : b ∷ (take (smaller n (suc m)) input ++ left) ≡ b ∷ input =
      ap (λ xs. b ∷ xs) (take-append-drop (smaller n (suc m)) input) in
    elim (Bool-cases (is_empty input)) [
      | inl ended ↦
          rw (h, ended)
            (b ∷ take (smaller n (suc m)) input, conn id left b e false true, true, refl, whole)
      | inr going ↦
          rw (h, going)
            (b ∷ take (smaller n (suc m)) input, conn id left b e false closed, false, refl, whole)
    ]

read-Gives :
    (n : ℕ) (m : Option ℕ) (id : ℕ) (input : List ℕ) (b : ℕ) (e f closed : Bool)
    → Gives (conn id input b e f closed) (read (suc n) m (conn id input b e f closed))
unfolding read read_below
read-Gives n m id input b e true closed = first-Gives n m id input b e closed _ refl
read-Gives n none id input b e false closed = ([], conn id input b e false closed, true, refl, refl)
read-Gives n (some m) id input b e false closed = (
  take (smaller (suc n) (suc m)) input,
  conn id (drop (smaller (suc n) (suc m)) input) b e false closed,
  is_empty input,
  refl,
  take-append-drop (smaller (suc n) (suc m)) input,
)

-- Reads with room for at least one byte never panic, whatever has arrived before each and whichever of
-- them end in an error, and their bytes with those that are still to be read are all the bytes that
-- the client sent, once and in order: the one that Accept read to tell TLS from plain text, and those
-- behind it.
pub reads-pending :
    (sizes : List (ℕ × Option ℕ)) (c : Conn)
    → (bytes : List ℕ) × (c' : Conn) × (reads (map (λ s. (suc s.0, s.1)) sizes) c
        ≡ some (bytes, c'))
      × (bytes ++ pending c' ≡ pending c)
unfolding reads
reads-pending [] c = ([], c, refl, refl)
reads-pending ((n, m) ∷ rest) c =
    let (bytes, c', ended, answered, split) = read-Gives n m c.id c.input c.b c.e c.f c.closed in
    let (more, d, done, left) = reads-pending rest c' in
    (
      bytes ++ more,
      d,
      ap (and_reads (reads (map (λ s. (suc s.0, s.1)) rest))) answered ∙ ap (and_more bytes) done,
      append_assoc bytes more (pending d) ∙ ap (λ xs. bytes ++ xs) left ∙ split,
    )
