-- ===== src/Network/System.antt =====
-- crates/network-agent/src/system.rs: `CommandNetworkSystem`, which shapes an interface by the programs
-- `nft` and `tc`. The programs are a parameter: each call exits, with what it wrote to its error
-- output, and leaves another world. The detection of the interface by `ip` is a parameter too.
pub mod Clearing
use simchain.Base.{
  ℕ, Bool, true, false, not, ◌&&◌, ◌||◌, String, Option, none, some, List, [], ◌∷◌, leb, nat_eq,
  all, length, if◌then◌else◌, Result, ok, err,
}
use simchain.Base.Text.{codes}
use simchain.Network.Impairment.{NetworkImpairment, netem, partition}
use simchain.Network.Control.{NetworkSystem}

-- how a program ends, or that it did not run to its end
pub data Exit : Type 0 where
  success : Exit
  failure : (stderr : String) → Exit
  broken : (error : String) → Exit

abbrev pub is_success : Exit → Bool
is_success success = true
is_success _ = false

-- the commands of `netem_spec`, `partition_spec`, `clear_nft_spec` and `clear_netem_spec`
pub record Programs (F W : Type 0) : Type 0 where
  pub route_interface : W → Result String String × W
  pub replace_qdisc : (interface : String) (delay_ms : ℕ) (loss_pct : F) → W → Exit × W
  pub load_table : (interface : String) (ingress_drop egress_drop : Bool) → W → Exit × W
  pub delete_table : W → Exit × W
  pub delete_qdisc : (interface : String) → W → Exit × W

abbrev pub begins_with : List ℕ → List ℕ → Bool
begins_with [] text = true
begins_with (c ∷ cs) [] = false
begins_with (c ∷ cs) (d ∷ ds) = nat_eq c d && begins_with cs ds

abbrev pub has_part : List ℕ → List ℕ → Bool
has_part part [] = begins_with part []
has_part part (c ∷ cs) = begins_with part (c ∷ cs) || has_part part cs

-- whether the error output has one of the texts
abbrev pub is_acceptable : List String → String → Bool
is_acceptable [] stderr = false
is_acceptable (text ∷ texts) stderr =
    has_part (codes text) (codes stderr) || is_acceptable texts stderr

abbrev pub missing_table : List String
missing_table = "No such file or directory" ∷ []

abbrev pub missing_qdisc : List String
missing_qdisc = "No such file or directory" ∷ "Cannot delete qdisc with handle of zero" ∷ []

abbrev pub is_interface_byte : ℕ → Bool
is_interface_byte c =
    (leb 48 c && leb c 57)
    || (leb 65 c && leb c 90)
    || (leb 97 c && leb c 122)
    || nat_eq c 95
    || nat_eq c 45
    || nat_eq c 46

abbrev pub validate_interface : String → Bool
validate_interface interface =
    not (nat_eq (length (codes interface)) 0)
    && leb (length (codes interface)) 15
    && all is_interface_byte (codes interface)

module _ {W : Type 0} where
  -- a failure with an acceptable text is none
  unfoldable pub run : (acceptable : List String) → Exit × W → Result String (Unit {0}) × W
  run acceptable (success, w) = (ok tt, w)
  run acceptable (broken error, w) = (err error, w)
  run acceptable (failure stderr, w) =
      (if is_acceptable acceptable stderr then ok tt else err stderr, w)

module _ {F W : Type 0} (programs : Programs F W) where
  unfoldable pub clear : (interface : String) → W → Result String (Unit {0}) × W
  clear interface w =
      let (table, w') = run missing_table (programs.delete_table w) in
      let (qdisc, w'') = run missing_qdisc (programs.delete_qdisc interface w') in
      elim (validate_interface interface) [
        | false ↦ (err "invalid network interface name", w)
        | true ↦ elim table [ err e ↦ (err e, w') | ok _ ↦ (qdisc, w'') ]
      ]

  -- the command of an impairment
  unfoldable pub impair : (interface : String) → NetworkImpairment F → W → Exit × W
  impair interface (netem delay_ms loss_pct) = programs.replace_qdisc interface delay_ms loss_pct
  impair interface (partition ingress_drop egress_drop) =
      programs.load_table interface ingress_drop egress_drop

  unfoldable pub apply :
      (interface : String) → NetworkImpairment F → W → Result String (Unit {0}) × W
  apply interface impairment w =
      let (cleared, w') = clear interface w in
      let (done, w'') = run [] (impair interface impairment w') in
      elim (validate_interface interface) [
        | false ↦ (err "invalid network interface name", w)
        | true ↦ elim cleared [
          | err e ↦ (err e, w')
          | ok _ ↦ elim done [ ok _ ↦ (ok tt, w'') | err e ↦ (err e, (clear interface w'').1) ]
        ]
      ]

  abbrev pub command_network_system : NetworkSystem F W
  command_network_system = record {
    detect_p2p_interface = programs.route_interface;
    apply = apply;
    clear = clear;
  }
