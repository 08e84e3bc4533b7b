-- ===== src/Otr/Files.antt =====
-- otr-extension/OTR.cpp: the methods of the class `OTR` that create and free libotr's state and read
-- and write its files. The errors that they return are ignored where they are called, and left out.
use irc_core.Base.{Bytes}
use irc_core.Otr.Libotr.{Libotr}

module _ {W : Type 0} (O : Libotr W) where
  open O use {
    Us, otrl_userstate_create, otrl_userstate_free, otrl_privkey_write_fingerprints,
    otrl_privkey_generate, otrl_instag_generate, otrl_privkey_read, otrl_instag_read,
    otrl_privkey_read_fingerprints,
  }

  -- `OTR::OTR` and `OTR::~OTR`
  abbrev pub create : Us
  create = otrl_userstate_create

  abbrev pub destroy : Us → W → W
  destroy us w = otrl_userstate_free us w

  abbrev pub privkey_write_fingerprints : Bytes → Us → W → W
  privkey_write_fingerprints path us w = otrl_privkey_write_fingerprints path us w

  abbrev pub privkey_generate : Bytes → Bytes → Bytes → Us → W → Us × W
  privkey_generate path accountname protocol us w =
      otrl_privkey_generate path accountname protocol us w

  abbrev pub instag_generate : Bytes → Bytes → Bytes → Us → W → Us × W
  instag_generate path accountname protocol us w =
      otrl_instag_generate path accountname protocol us w

  abbrev pub privkey_read : Bytes → Us → W → Us × W
  privkey_read path us w = otrl_privkey_read path us w

  abbrev pub instag_read : Bytes → Us → W → Us × W
  instag_read path us w = otrl_instag_read path us w

  abbrev pub privkey_read_fingerprints : Bytes → Us → W → Us × W
  privkey_read_fingerprints path us w = otrl_privkey_read_fingerprints path us w
