-- ===== src/Tests/TssLib.antt =====
-- A tss-lib whose messages are bytes with recipients, whose keys give their last byte, and whose parties stay in the order they have.
use tss_server.Prelude.{ℕ, ◌%◌, Text, Option, List, [], ◌∷◌, ok, refl}
use tss_server.Session.{TssLib}
use tss_server.KeyGen.Party.{KeyLib}

pub record Peer : Type 0 where
  pub id : Text
  pub moniker : Text
  pub key : ℕ

pub record Outgoing : Type 0 where
  pub to : Option (List Peer)
  pub bytes : Text

abbrev pub tss_lib : TssLib
tss_lib = record {
  PartyId = Peer;
  Message = Outgoing;
  ParsedMessage = Text;
  new_party_id = λ id moniker key. record { id = id; moniker = moniker; key = key };
  get_id = λ p. p.id;
  get_moniker = λ p. p.moniker;
  get_key = λ p. p.key % 256 ∷ [];
  sort_party_ids = λ ps. ps;
  get_to = λ m. m.to;
  wire_bytes = λ m. ok m.bytes;
  parse_wire_message = λ bytes p broadcast. ok bytes;
  get_id-new_party_id = λ id moniker key. refl;
  sort-keeps = λ ps p h. h;
  sort-adds_none = λ ps p h. h;
}

-- Save data is a public key, and its JSON.
abbrev pub key_lib : KeyLib
key_lib = record {
  SaveData = Text × Text;
  PubKey = Text;
  marshal = λ d. ok d.1;
  marshal_compressed = λ d. d.0;
  parse_pub_key = λ bytes. ok bytes;
  serialize_compressed = λ bytes. bytes;
}

-- What a list of actions has before its last one.
abbrev pub all_but_last : {A : Type 0} → List A → List A
all_but_last [] = []
all_but_last (a ∷ []) = []
all_but_last (a ∷ b ∷ rest) = a ∷ all_but_last (b ∷ rest)
