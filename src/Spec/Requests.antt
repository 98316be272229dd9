-- ===== src/Spec/Requests.antt =====
-- The request that a command text of src/command.c makes, and what the command does to the view.
use lbm_rtp_proxy.Base.{ℕ, List, [], ◌∷◌, ◌≡◌, refl, arith, ◌==◌, if◌then◌else◌}
use lbm_rtp_proxy.Command.{
  Globals, add_values, delete_values, configure_values, smoothing_values, loopback_values,
  flush_values, command_add, command_delete, command_configure, command_smoothing, command_loopback,
  command_flush, handle_command, update_table_function, parsed_entry,
}
use lbm_rtp_proxy.Command.Formats.{
  Scanner, sscanf, Fits, add_format, port_format, two_ips_format, u8_format, space_format,
}
use lbm_rtp_proxy.Config.{config_clr}
use lbm_rtp_proxy.Net.Address.{atohl}
use lbm_rtp_proxy.Net.ByteOrder.{ByteOrder, htons, htonl}
use lbm_rtp_proxy.Spec.{
  Request, view, View-ext, perform, add, delete, configure, smoothing, loopback, flush, nothing,
}
use lbm_rtp_proxy.Table.{table_del, table_atomically}
use lbm_rtp_proxy.Table.Laws.{table_clr_row}

module _ ⦃o : ByteOrder⦄ where
  unfoldable pub add_request : List ℕ → Request
  add_request (p ∷ s0 ∷ s1 ∷ s2 ∷ s3 ∷ sp ∷ r0 ∷ r1 ∷ r2 ∷ r3 ∷ rp ∷ b0 ∷ b1 ∷ b2 ∷ b3 ∷ bp ∷ []) =
      add (htons p) (record {
        sender_addr = htonl (atohl (record { a = s0; b = s1; c = s2; d = s3 }));
        sender_port = htons sp;
        receiver_addr = htonl (atohl (record { a = r0; b = r1; c = r2; d = r3 }));
        receiver_port = htons rp;
        sbc_addr = htonl (atohl (record { a = b0; b = b1; c = b2; d = b3 }));
        sbc_port = htons bp;
      })
  add_request _ = nothing

  unfoldable pub delete_request : List ℕ → Request
  delete_request (p ∷ []) = delete (htons p)
  delete_request _ = nothing

  unfoldable pub configure_request : List ℕ → Request
  configure_request (i0 ∷ i1 ∷ i2 ∷ i3 ∷ e0 ∷ e1 ∷ e2 ∷ e3 ∷ []) =
      configure (htonl (atohl (record { a = i0; b = i1; c = i2; d = i3 })))
        (htonl (atohl (record { a = e0; b = e1; c = e2; d = e3 })))
  configure_request _ = nothing

unfoldable pub smoothing_request : List ℕ → Request
smoothing_request (x ∷ []) = smoothing x
smoothing_request _ = nothing

unfoldable pub loopback_request : List ℕ → Request
loopback_request (x ∷ []) = loopback x
loopback_request _ = nothing

module _ ⦃o : ByteOrder⦄ where
  add_values-perform :
      (vs : List ℕ) (random_sn : ℕ) (g : Globals)
      → Fits add_format vs
      → view (add_values vs random_sn g) ≡ perform (add_request vs) (view g)
  unfolding add_request add_values table_atomically update_table_function parsed_entry
  add_values-perform
        (p ∷ s0 ∷ s1 ∷ s2 ∷ s3 ∷ sp ∷ r0 ∷ r1 ∷ r2 ∷ r3 ∷ rp ∷ b0 ∷ b1 ∷ b2 ∷ b3 ∷ bp ∷ [])
        random_sn g f =
      View-ext _ _ refl (λ i. ground (arith, o.htons-lt p f.0))
  add_values-perform _ random_sn g f = refl

  delete_values-perform :
      (vs : List ℕ) (g : Globals)
      → Fits port_format vs
      → view (delete_values vs g) ≡ perform (delete_request vs) (view g)
  unfolding delete_request delete_values table_del
  delete_values-perform (p ∷ []) g f = View-ext _ _ refl (λ i. ground (arith, o.htons-lt p f.0))
  delete_values-perform _ g f = refl

  configure_values-perform :
      (vs : List ℕ) (g : Globals)
      → view (configure_values vs g) ≡ perform (configure_request vs) (view g)
  unfolding configure_request configure_values
  configure_values-perform (i0 ∷ i1 ∷ i2 ∷ i3 ∷ e0 ∷ e1 ∷ e2 ∷ e3 ∷ []) g = refl
  configure_values-perform _ g = refl

smoothing_values-perform :
    (vs : List ℕ) (g : Globals)
    → view (smoothing_values vs g) ≡ perform (smoothing_request vs) (view g)
unfolding smoothing_request smoothing_values
smoothing_values-perform (x ∷ []) g = refl
smoothing_values-perform _ g = refl

loopback_values-perform :
    (vs : List ℕ) (g : Globals)
    → view (loopback_values vs g) ≡ perform (loopback_request vs) (view g)
unfolding loopback_request loopback_values
loopback_values-perform (x ∷ []) g = refl
loopback_values-perform _ g = refl

flush_values-perform :
    (vs : List ℕ) (g : Globals)
    → Fits space_format vs
    → view (flush_values vs g) ≡ perform flush (view g)
unfolding flush_values config_clr
flush_values-perform [] g f = View-ext _ _ refl (λ i. ground (arith, table_clr_row i g.table))
flush_values-perform (v ∷ vs) g f = absurd f

module _ ⦃o : ByteOrder⦄ ⦃s : Scanner⦄ where
  -- The requests by the first letter of the text.
  unfoldable pub request : List ℕ → Request
  request [] = nothing
  request (c ∷ parameters) =
      if c == b'a'
      then add_request (sscanf add_format parameters)
      else (if c == b'd'
          then delete_request (sscanf port_format parameters)
          else (if c == b'c'
              then configure_request (sscanf two_ips_format parameters)
              else (if c == b's'
                  then smoothing_request (sscanf u8_format parameters)
                  else (if c == b'l'
                      then loopback_request (sscanf u8_format parameters)
                      else (if c == b'f' then flush else nothing)))))

  module _ (parameters : List ℕ) (random_sn : ℕ) (g : Globals) where
    command_add-perform :
        view (command_add parameters random_sn g)
        ≡ perform (add_request (sscanf add_format parameters)) (view g)
    unfolding command_add
    command_add-perform =
        add_values-perform (sscanf add_format parameters) random_sn g
          (s.sscanf-Fits add_format parameters)

    command_delete-perform :
        view (command_delete parameters g)
        ≡ perform (delete_request (sscanf port_format parameters)) (view g)
    unfolding command_delete
    command_delete-perform =
        delete_values-perform (sscanf port_format parameters) g
          (s.sscanf-Fits port_format parameters)

    command_configure-perform :
        view (command_configure parameters g)
        ≡ perform (configure_request (sscanf two_ips_format parameters)) (view g)
    unfolding command_configure
    command_configure-perform = configure_values-perform (sscanf two_ips_format parameters) g

    command_smoothing-perform :
        view (command_smoothing parameters g)
        ≡ perform (smoothing_request (sscanf u8_format parameters)) (view g)
    unfolding command_smoothing
    command_smoothing-perform = smoothing_values-perform (sscanf u8_format parameters) g

    command_loopback-perform :
        view (command_loopback parameters g)
        ≡ perform (loopback_request (sscanf u8_format parameters)) (view g)
    unfolding command_loopback
    command_loopback-perform = loopback_values-perform (sscanf u8_format parameters) g

    command_flush-perform : view (command_flush parameters g) ≡ perform flush (view g)
    unfolding command_flush
    command_flush-perform =
        flush_values-perform (sscanf space_format parameters) g
          (s.sscanf-Fits space_format parameters)

  -- A command does to what is seen of the configuration and the table what its text asks for.
  pub handle_command-perform :
      (command : List ℕ) (random_sn : ℕ) (g : Globals)
      → view (handle_command command random_sn g).0 ≡ perform (request command) (view g)
  unfolding request handle_command
  handle_command-perform [] random_sn g = refl
  handle_command-perform (c ∷ parameters) random_sn g = ground (
    arith,
    command_add-perform parameters random_sn g,
    command_delete-perform parameters random_sn g,
    command_configure-perform parameters random_sn g,
    command_smoothing-perform parameters random_sn g,
    command_loopback-perform parameters random_sn g,
    command_flush-perform parameters random_sn g,
  )
