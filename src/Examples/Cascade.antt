-- ===== src/Examples/Cascade.antt =====
-- The cases of tests/table_test.c: calls that lead to one another, and a call whose receiver is its own
-- proxy port.
use lbm_rtp_proxy.Base.{ℕ, ◌≡◌, refl, some}
use lbm_rtp_proxy.Config.{Config, empty_config, config_init, config_get, config_set}
use lbm_rtp_proxy.Examples.Machine.{swap16, little_endian}
use lbm_rtp_proxy.Net.Address.{Ip, atohl}
use lbm_rtp_proxy.Net.ByteOrder.{htons, htonl}
use lbm_rtp_proxy.Table.{Table, empty_entry, table_put, is_entry_valid}
use lbm_rtp_proxy.Table.Routing.{Routing, get_routing}

abbrev media_ip : Ip
media_ip = record { a = 192; b = 168; c = 100; d = 8 }

abbrev proxy_ip : Ip
proxy_ip = record { a = 10; b = 1; c = 40; d = 121 }

abbrev int_proxy_ip : Ip
int_proxy_ip = record { a = 1; b = 1; c = 1; d = 1 }

abbrev ext_proxy_ip : Ip
ext_proxy_ip = record { a = 2; b = 2; c = 2; d = 2 }

abbrev sbc_ip : Ip
sbc_ip = record { a = 213; b = 30; c = 241; d = 190 }

abbrev open_ip : Ip
open_ip = record { a = 0; b = 0; c = 0; d = 0 }

abbrev net : Ip → ℕ
net ip = htonl (atohl ip)

unfoldable set_config : Ip → Ip → Config → Config
unfolding config_get config_set
set_config int ext config =
    config_set (record (config_get config) { int_proxy_addr = net int; ext_proxy_addr = net ext })
      config

abbrev add_route : ℕ → Ip → ℕ → Ip → ℕ → Ip → ℕ → Table → Table
add_route prx_port snd_ip snd_port rcv_ip rcv_port sbc sbc_port t =
    table_put (htons prx_port)
      (record empty_entry {
        sender_addr = net snd_ip;
        sender_port = htons snd_port;
        receiver_addr = net rcv_ip;
        receiver_port = htons rcv_port;
        sbc_addr = net sbc;
        sbc_port = htons sbc_port;
      })
      t

-- One call that leads to the port of another that is not there yet, and then both.
abbrev one_call : Table
one_call = add_route 32768 media_ip 18562 media_ip 18560 proxy_ip 32770 (λ i. empty_entry)

abbrev two_calls : Table
two_calls = add_route 32770 media_ip 18568 media_ip 18564 proxy_ip 32768 one_call

abbrev cascade : Config
cascade = set_config proxy_ip proxy_ip (config_init empty_config)

-- `assert_route_cascading` at a port, for the routes from the sender and to the receiver.
abbrev cascaded :
    ℕ → (snd : Ip) → ℕ → (dst : Ip) → ℕ → (src : Ip) → ℕ → (rcv : Ip) → ℕ → (e_port : ℕ) → Routing
cascaded prx_port snd snd_port dst dst_port src src_port rcv rcv_port e_port = record {
  i_src_addr = net snd;
  i_src_port = htons snd_port;
  i_dst_addr = net rcv;
  i_dst_port = htons rcv_port;
  i_prx_addr = net proxy_ip;
  i_prx_port = htons prx_port;
  e_prx_addr = net proxy_ip;
  e_prx_port = htons e_port;
  e_src_addr = net src;
  e_src_port = htons src_port;
  e_dst_addr = net dst;
  e_dst_port = htons dst_port;
  loopback = 0;
  smoothing = 1;
}

cascade_alone :
    (get_routing (swap16 32768) cascade one_call).1
    ≡ some (cascaded 32768 media_ip 18562 proxy_ip 32770 proxy_ip 32770 media_ip 18560 32768)
unfolding get_routing table_put is_entry_valid atohl set_config config_init
cascade_alone = refl

cascade_first :
    (get_routing (swap16 32768) cascade two_calls).1
    ≡ some (cascaded 32768 media_ip 18562 media_ip 18564 media_ip 18568 media_ip 18560 32770)
unfolding get_routing table_put is_entry_valid atohl set_config config_init
cascade_first = refl

cascade_second :
    (get_routing (swap16 32770) cascade two_calls).1
    ≡ some (cascaded 32770 media_ip 18568 media_ip 18560 media_ip 18562 media_ip 18564 32768)
unfolding get_routing table_put is_entry_valid atohl set_config config_init
cascade_second = refl

abbrev short_circuit : Table
short_circuit = add_route 32768 open_ip 0 int_proxy_ip 32768 sbc_ip 40960 (λ i. empty_entry)

short_circuited :
    (get_routing (swap16 32768) (set_config int_proxy_ip ext_proxy_ip cascade) short_circuit).1
    ≡ some (record {
      i_src_addr = net sbc_ip;
      i_src_port = htons 40960;
      i_dst_addr = net sbc_ip;
      i_dst_port = htons 40960;
      i_prx_addr = net ext_proxy_ip;
      i_prx_port = htons 32768;
      e_prx_addr = net ext_proxy_ip;
      e_prx_port = htons 32768;
      e_src_addr = net sbc_ip;
      e_src_port = htons 40960;
      e_dst_addr = net sbc_ip;
      e_dst_port = htons 40960;
      loopback = 1;
      smoothing = 1;
    })
unfolding get_routing table_put is_entry_valid atohl set_config config_init
short_circuited = refl
