-- ===== src/Procfs/Writing.antt =====
-- What a write does with the user's bytes.
use lbm_rtp_proxy.Base.{
  ℕ, Bool-cases, inl, inr, ◌<◌, Bool, true, false, List, [], take, length, length-take, take_all,
  take-take, nil_of_length, ◌≡◌, ◌⊎◌, refl, arith, ltb,
}
use lbm_rtp_proxy.Command.{Globals, handle_command}
use lbm_rtp_proxy.Command.Formats.{Scanner}
use lbm_rtp_proxy.Net.ByteOrder.{ByteOrder}
use lbm_rtp_proxy.Procfs.{copied_size, command_size, enomem, efault, written, rtp_proxy_write}

size-clipped : (xs : List ℕ) → command_size (copied_size (length xs)) ≡ length (take 255 xs)
unfolding command_size copied_size
size-clipped xs = ground (arith, length-take 255 xs)

clipped :
    (xs : List ℕ)
    → take (command_size (copied_size (length xs))) (take (copied_size (length xs)) xs)
      ≡ take 255 xs
unfolding command_size copied_size
clipped xs = elim (Bool-cases (ltb (length xs) 256)) [
  | inl short ↦ rw short (ground (arith, take_all 255 xs, take_all (length xs) xs))
  | inr long ↦ rw long (take-take 255 256 xs (omega arith))
]

handle_command_nil :
    ⦃o : ByteOrder⦄ ⦃s : Scanner⦄ (random_sn : ℕ) (g : Globals)
    → (handle_command [] random_sn g).0 ≡ g
unfolding handle_command
handle_command_nil random_sn g = refl

module _ ⦃o : ByteOrder⦄ ⦃s : Scanner⦄ where
  -- A write without memory, or from a bad address, changes nothing. Any other runs the first 255
  -- bytes, or all if they are fewer, as one command, and reports that many as written, which leaves
  -- room for the terminating NUL in the buffer of 256.
  pub rtp_proxy_write_lem :
      (alloc copied : Bool) (user_buffer : List ℕ) (random_sn : ℕ) (g : Globals)
      → let (g', result) = rtp_proxy_write alloc copied user_buffer random_sn g in
        ((g' ≡ g) × ((result ≡ enomem) ⊎ (result ≡ efault)) × ((alloc ≡ false) ⊎ (copied ≡ false)))
        ⊎ ((alloc ≡ true)
            × (copied ≡ true)
            × (g' ≡ (handle_command (take 255 user_buffer) random_sn g).0)
            × (result ≡ written (length (take 255 user_buffer)))
            × (length (take 255 user_buffer) < 256))
  unfolding rtp_proxy_write
  rtp_proxy_write_lem false copied user_buffer random_sn g = ground arith
  rtp_proxy_write_lem true false user_buffer random_sn g = ground arith
  rtp_proxy_write_lem true true user_buffer random_sn g =
      rw (clipped user_buffer, size-clipped user_buffer)
        (ground (
          arith,
          length-take 255 user_buffer,
          nil_of_length (take 255 user_buffer),
          handle_command_nil random_sn g,
        ))
