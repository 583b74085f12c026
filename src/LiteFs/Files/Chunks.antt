-- ===== src/LiteFs/Files/Chunks.antt =====
-- The loops of ReadFile over a chain of chunks.
use dark_core.Prelude.{
  ℕ, zero, suc, ◌+◌, ◌-◌, ◌*◌, ◌/◌, ◌%◌, ◌≡◌, ◌≤◌, ◌<◌, ◌⊎◌, inl, inr, refl, ◌∙◌, arith, ◌&&◌, ltb,
  leb, if◌then◌else◌, true, List, [], ◌∷◌, some, length, drop, size_mod,
}
use dark_core.Common.Memory
use dark_core.Common.Memory.Copying.{Forward, copy-copied}
use dark_core.LiteFs.{StorageDevice, chunk_size}
use dark_core.LiteFs.Files.{load_sector, next_lba, skip_chunks, read_chunks, sector_size}

-- The sectors hold chunks that lead from one to the next, from an LBA on.
abbrev pub Chain : StorageDevice → ℕ → List Memory.Memory → Type 0
Chain device lba [] = Unit
Chain device lba (s ∷ ss) =
    (device.read_sector (lba % size_mod) ≡ some s) × Chain device (next_lba lba s) ss

-- A byte of the data of a chain.
abbrev pub data_byte : List Memory.Memory → ℕ → ℕ
data_byte [] k = 0
data_byte (s ∷ ss) k = if ltb k chunk_size then s k else data_byte ss (k - chunk_size)

-- The bytes of the chunks that a count of bytes takes up.
abbrev pub rounded : ℕ → ℕ
rounded count = (count + 503) / 504 * 504

-- The memory after the data of a chain went to an address.
abbrev pub filled : List Memory.Memory → ℕ → ℕ → Memory.Memory → Memory.Memory
filled chunks target count m =
    λ p. if leb target p && ltb p (target + count) then data_byte chunks (p - target) else m p

-- An address lies outside the local chunk.
abbrev pub Outside : ℕ → ℕ → Type 0
Outside chunk p = (p < chunk) ⊎ (chunk + sector_size ≤ p)

-- The buffer lies apart from the local chunk.
abbrev pub Apart : ℕ → ℕ → ℕ → Type 0
Apart chunk target count = (chunk + sector_size ≤ target) ⊎ (target + count ≤ chunk)

pub skip_chunks-Chain :
    (device : StorageDevice) (n lba : ℕ) (chunks : List Memory.Memory)
    → Chain device lba chunks
    → n ≤ length chunks
    → (first : ℕ) × (skip_chunks n device lba ≡ some first) × Chain device first (drop n chunks)
unfolding skip_chunks
skip_chunks-Chain device zero lba ss chain h = (lba, refl, chain)
skip_chunks-Chain device (suc n) lba [] chain h = absurd (omega arith)
skip_chunks-Chain device (suc n) lba (s ∷ ss) chain h =
    rw (chain.0, skip_chunks) (skip_chunks-Chain device n (next_lba lba s) ss chain.1 (omega arith))

-- The copy of a chunk's data out of the local chunk.
copy-load_sector :
    (target chunk : ℕ) (s m : Memory.Memory) (p : ℕ)
    → Apart chunk target 504
    → Outside chunk p
    → Memory.copy target chunk 504 (load_sector chunk s m) p
      ≡ (if leb target p && ltb p (target + 504) then s (p - target) else m p)
unfolding load_sector
copy-load_sector t c s m p apart out =
    copy-copied t c 504 (load_sector c s m) p (forward apart) ∙ ground (arith, out)
  where
    forward : Apart c t 504 → Forward t c 504
    forward (inl h) = inr (omega arith)
    forward (inr h) = inl (omega arith)

-- A round writes the data of the first chunk, and the rounds after it those of the others.
filled-step :
    (s : Memory.Memory) (ss : List Memory.Memory) (target b : ℕ) (m m' : Memory.Memory) (p : ℕ)
    → m' p ≡ (if leb target p && ltb p (target + 504) then s (p - target) else m p)
    → filled ss (target + 504) (rounded (suc b - 504)) m' p
      ≡ filled (s ∷ ss) target (rounded (suc b)) m p
filled-step s ss t b m m' p e = ground (arith, e)

-- The loop ends on a chain that is long enough, with its data at the target.
pub read_chunks-filled :
    (device : StorageDevice) (chunk : ℕ) (chunks : List Memory.Memory) (fuel target lba count : ℕ)
    (m : Memory.Memory)
    → Chain device lba chunks
    → count ≤ 504 * length chunks
    → count ≤ fuel
    → Apart chunk target (rounded count)
    → (m' : Memory.Memory) × (read_chunks fuel device chunk target lba 0 count m ≡ some (true, m'))
      × ((p : ℕ) → Outside chunk p → m' p ≡ filled chunks target (rounded count) m p)
unfolding read_chunks
read_chunks-filled device c ss fuel t lba zero m chain long enough apart =
    (m, refl, λ p out. ground arith)
read_chunks-filled device c ss zero t lba (suc b) m chain long enough apart = absurd (omega arith)
read_chunks-filled device c [] (suc fuel) t lba (suc b) m chain long enough apart =
    absurd (omega arith)
read_chunks-filled device c (s ∷ ss) (suc fuel) t lba (suc b) m chain long enough apart =
    let rest =
      read_chunks-filled device c ss fuel (t + 504) (next_lba lba s) (suc b - 504)
        (Memory.copy t c 504 (load_sector c s m)) chain.1 (omega arith) (omega arith) later in
    (
      rest.0,
      rw (chain.0, read_chunks) rest.1,
      λ p out.
          rest.2 p out
          ∙ filled-step s ss t b m (Memory.copy t c 504 (load_sector c s m)) p
              (copy-load_sector t c s m p now out),
    )
  where
    now : Apart c t 504
    now = ground (arith, apart)

    later : Apart c (t + 504) (rounded (suc b - 504))
    later = ground (arith, apart)
