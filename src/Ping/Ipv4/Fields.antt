-- ===== src/Ping/Ipv4/Fields.antt =====
-- The fields of an IPv4 header, by the diagram in bind_function/ipv4_header.hpp.
use asio_tcp.Base.{
  ℕ, ◌+◌, ◌*◌, ◌/◌, ◌%◌, ◌<◌, ◌≡◌, refl, ap, Bool, true, false, List, [], ◌∷◌, ◌++◌, if◌then◌else◌,
  arith, not, le→leb, length, ◌==◌,
}
use asio_tcp.Ping.Stream.{Stream, store, read}
use asio_tcp.Ping.Ipv4.{
  Ipv4Header, version, header_length, type_of_service, total_length, identification, dont_fragment,
  more_fragments, fragment_offset, time_to_live, protocol, header_checksum, source_address,
  destination_address, fixed_part, check_version, options_part, extract,
}

pub record Fields : Type 0 where
  pub service : ℕ
  pub total : ℕ
  pub ident : ℕ
  pub df : Bool
  pub mf : Bool
  pub offset : ℕ
  pub ttl : ℕ
  pub proto : ℕ
  pub checksum : ℕ
  pub source : ℕ × ℕ × ℕ × ℕ
  pub destination : ℕ × ℕ × ℕ × ℕ

-- The fields fit into their bits.
pub record Fit (f : Fields) : Type 0 where
  pub total : f.total < 65536
  pub ident : f.ident < 65536
  pub offset : f.offset < 8192
  pub checksum : f.checksum < 65536

abbrev pub flag : Bool → ℕ
flag b = if b then 1 else 0

abbrev address_bytes : ℕ × ℕ × ℕ × ℕ → List ℕ
address_bytes a = a.0 ∷ a.1 ∷ a.2 ∷ a.3 ∷ []

-- The 20 bytes of a header without options.
abbrev pub packet : Fields → List ℕ
packet f =
    69
    ∷ f.service
    ∷ (f.total / 256)
    ∷ (f.total % 256)
    ∷ (f.ident / 256)
    ∷ (f.ident % 256)
    ∷ (flag f.df * 64 + flag f.mf * 32 + f.offset / 256)
    ∷ (f.offset % 256)
    ∷ f.ttl
    ∷ f.proto
    ∷ (f.checksum / 256)
    ∷ (f.checksum % 256)
    ∷ (address_bytes f.source ++ address_bytes f.destination)

-- What the accessors return of a header with the fields.
pub record Shows (f : Fields) (h : Ipv4Header) : Type 0 where
  pub version : version h ≡ 4
  pub header_length : header_length h ≡ 20
  pub type_of_service : type_of_service h ≡ f.service
  pub total_length : total_length h ≡ f.total
  pub identification : identification h ≡ f.ident
  pub dont_fragment : dont_fragment h ≡ f.df
  pub more_fragments : more_fragments h ≡ f.mf
  pub fragment_offset : fragment_offset h ≡ f.offset
  pub time_to_live : time_to_live h ≡ f.ttl
  pub protocol : protocol h ≡ f.proto
  pub header_checksum : header_checksum h ≡ f.checksum
  pub source_address : source_address h ≡ address_bytes f.source
  pub destination_address : destination_address h ≡ address_bytes f.destination

-- The byte with the flags and the first bits of the offset.
abbrev flags : Bool → Bool → ℕ → ℕ
flags df mf offset = flag df * 64 + flag mf * 32 + offset / 256

flags-dont :
    (df mf : Bool) (offset : ℕ) → offset < 8192 → not (flags df mf offset / 64 % 2 == 0) ≡ df
flags-dont false false o h =
    let bit : flags false false o / 64 % 2 ≡ 0 = omega (arith, h) in ap (λ n. not (n == 0)) bit
flags-dont false true o h =
    let bit : flags false true o / 64 % 2 ≡ 0 = omega (arith, h) in ap (λ n. not (n == 0)) bit
flags-dont true false o h =
    let bit : flags true false o / 64 % 2 ≡ 1 = omega (arith, h) in ap (λ n. not (n == 0)) bit
flags-dont true true o h =
    let bit : flags true true o / 64 % 2 ≡ 1 = omega (arith, h) in ap (λ n. not (n == 0)) bit

flags-more :
    (df mf : Bool) (offset : ℕ) → offset < 8192 → not (flags df mf offset / 32 % 2 == 0) ≡ mf
flags-more false false o h =
    let bit : flags false false o / 32 % 2 ≡ 0 = omega (arith, h) in ap (λ n. not (n == 0)) bit
flags-more false true o h =
    let bit : flags false true o / 32 % 2 ≡ 1 = omega (arith, h) in ap (λ n. not (n == 0)) bit
flags-more true false o h =
    let bit : flags true false o / 32 % 2 ≡ 0 = omega (arith, h) in ap (λ n. not (n == 0)) bit
flags-more true true o h =
    let bit : flags true true o / 32 % 2 ≡ 1 = omega (arith, h) in ap (λ n. not (n == 0)) bit

flags-offset :
    (df mf : Bool) (offset : ℕ)
    → offset < 8192
    → (flags df mf offset * 256 + offset % 256) % 65536 % 8192 ≡ offset
flags-offset false false o h = omega (arith, h)
flags-offset false true o h = omega (arith, h)
flags-offset true false o h = omega (arith, h)
flags-offset true true o h = omega (arith, h)

module _ (f : Fields) (more : List ℕ) (h : Ipv4Header) where
  abbrev start : Stream
  start = record { bytes = packet f ++ more; good = true }

  abbrev fixed : Ipv4Header
  unfolding fixed_part
  fixed = fixed_part start h

  fixed-Shows : Fit f → Shows f fixed
  unfolding fixed_part store
  fixed-Shows fit = record {
    version = refl;
    header_length = refl;
    type_of_service = refl;
    total_length = omega (arith, fit.total);
    identification = omega (arith, fit.ident);
    dont_fragment = flags-dont f.df f.mf f.offset fit.offset;
    more_fragments = flags-more f.df f.mf f.offset fit.offset;
    fragment_offset = flags-offset f.df f.mf f.offset fit.offset;
    time_to_live = refl;
    protocol = refl;
    header_checksum = omega (arith, fit.checksum);
    source_address = refl;
    destination_address = refl;
  }

  rest :
      options_part (check_version (read 20 start) fixed) fixed
      ≡ (fixed, record { bytes = more; good = true })
  unfolding fixed_part store check_version options_part
  rest =
      rw (le→leb 20 (length (packet f ++ more)) (omega arith), le→leb 0 (length more) (omega arith))
        refl

  -- A packet that is laid out as the diagram says, without options, is read as its fields, and
  -- nothing behind it is taken.
  pub extract-Shows :
      Fit f
      → Shows f (extract start h).0 × ((extract start h).1 ≡ record { bytes = more; good = true })
  unfolding extract
  extract-Shows fit = (rw rest (fixed-Shows fit), ap (λ r. r.1) rest)
