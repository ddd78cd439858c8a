-- ===== src/Lib.antt =====
-- JuBiter SDK: the parts between an application and a wallet device.
--
-- The SDK keeps devices and contexts under 16-bit handles, makes device objects and coin tokens by
-- tables, sends commands over a link, and opens a secure channel with certificates. The files model
-- these parts:
--
-- Fido is the packet protocol of the Bluetooth link (src/device/Fido.cpp, include/device/Fido.h).
-- The record Fido holds the fields of the singleton; recv_call_back is RecvCallBack, check_response
-- checkResponse, wrap_fido_apdu wrapFidoApdu with its loop, parse_fido_apdu parseFidoApdu. Packets
-- states what the packets of a message are, apart from the code; Wrap, Unwrap, Receive, RoundTrip,
-- Prefix and Sequence prove about sender and receiver.
--
-- Gpc is gpc/: TlvBuf (gpc/src/tlv.cpp), TagParse (gpc/src/tlvparse.c) and Certificate, the two
-- recursive decoders of gpc/src/scp11.cpp. Certificate/Fields describes items; Decode and PublicKey
-- prove about the decoders.
--
-- Gpc/Scp03 is the encryption of the channel (gpc/src/scp03.cpp), with the laws of the cipher in
-- Cipher and the padding in Padding. Gpc/Kdf is kdf2_sha256 of gpc/src/scp11.cpp. Gpc/Session is
-- the session keys, the shared information and the messages of the mutual authentication
-- (gpc/include/scp11/scp11.hpp, gpc/src/scp11.cpp); its Channel is scp11c (gpc/src/scp11c.cpp).
-- Apdu is the commands and responses (include/utility/Apdu.hpp, in Format) and JubApduBuiler
-- (src/device/ApduBuilder.cpp, in Builder); Exchange is _SendSafeApdu of
-- src/token/JubiterLiteToken.cpp, from where its channel is open. Card describes the other end of
-- the channel, and Session runs commands over both ends.
--
-- Blade is src/token/JubiterBladeToken.cpp: _SendApdu in Send, _TranPack and _TranPackApdu in
-- TranPack, and the commands that send one APDU in Commands and Tokens. Btc is
-- src/token/BTC/JubiterBladeBTCImpl.cpp, with what its commands are made of in BtcData, and Reading
-- proves about the reading of a signed transaction; MultiSig is its commands for several cosigners,
-- and Signatures proves about the signatures they give. Handshake is the beginning of
-- _SendSafeApdu, which opens the channel. Utility is the TLV helpers of src/utility/util.cpp, which
-- the commands use, and its hexadecimal texts in Hex; TlvRoundTrip and HexRoundTrip prove about
-- what is written and read back. Bio is EnumFingerprint of src/token/JubiterBIOToken.cpp, and
-- Fingerprints proves about the list it makes; Identity is the commands of that file that verify a
-- user or delete a fingerprint. Pb is pbparse/, which writes protocol buffers: varints in Varint,
-- fields in Field. Memory is memPtrs, _allocMem and JUB_FreeMemory of src/JUB_SDK_COMM.cpp.
--
-- Manager is include/utility/xManager.hpp, with its handles in Handles, Objects and Reach.
--
-- Device is two transports. Hid is src/device/JubiterHidDevice.cpp: Reports states what the reports
-- of a message are, apart from the code; Sending and Receiving prove about the two loops, Rounds
-- about a round of the second one, Exchange about SendData, and Settled and Closing about its
-- failures. Ble is src/device/JubiterBLEDevice.cpp over Fido: what the library calls back during a
-- call is two lists of events, before the wait begins and while it lasts; Waiting proves about the
-- wait, Exchange about SendData, Gone about a device that goes while it runs, and Link about the
-- connection. The callbacks act on the device that the factory gives, a Given, which need not be
-- the one in use.
--
-- Context is src/context/ for the BTC series: BaseContext in Base, its paths in Path and PathText,
-- BTCContext in Btc, AutoContextManager of include/context/BaseContext.h in Active, and
-- src/JUB_SDK_BTC.cpp in Api. Contexts are objects in a store, the manager holds their addresses,
-- and the device's state is passed on from call to call. Change proves about the change of a
-- transaction, and Outputs about the form of one of QRC20.
--
-- Product is the tables: include/utility/xFactory.hpp and the enumerations in Product, the
-- factories of include/device/DeviceFactory.h in Devices, include/product/ProductFactory.h in
-- Factory and Create, the token factories of include/token/factory/ in Tokens, GetDeviceClass of
-- src/context/BaseContext.cpp in Contexts, and include/context/*ContextFactory.h in
-- ContextFactories. A Build tells which modes are compiled in; most theorems hold for all of them,
-- the others for the builds of the platforms that include/JUB_SDK_COMM.h knows.
--
-- Common has the shared helpers, and Status the return values of include/JUB_SDK_COMM.h and
-- include/JUB_SDK_DEV.h.
--
-- An Outcome is the result of a call: its results, an error code, a fault where the code would read
-- or write outside a buffer, or stuck where a loop has no fuel left. The loops of Fido take the
-- length of the message as fuel, which is enough since every round takes at least a byte; the
-- decoders take the depth of their recursion, and an item whose size wraps around may need more
-- than any depth. The loop that looks for a padded size ends within a block, a varint of 64 bits
-- within 10 bytes, and the loop over TLV items takes a byte or more in every round; these numbers
-- are the fuel that the code is given. The loop that sends HID reports has a round more than the
-- message has bytes, and the one that receives them as many as the caller of send_data says, since
-- a device may ask for patience for ever; as many as reports come in are enough. A number has no
-- more digits than its size and one. A byte is a number, and what the source cuts to a byte is
-- written with % 2 ^ 8.
--
-- Parameters: the difference of two unrelated addresses that scp11.cpp compares with a length, the
-- coin numbers of the wallet-core library, AES in CBC mode and AES-CMAC of trezor-crypto (the
-- record Aes, with the laws of IsCipher), its curve and its hashes (the record Crypto, and the
-- SHA-256 that Kdf is given), the tags of the protobuf library (the record Wire), the device's
-- SendData where Blade uses it, hidapi (the record HidApi) and the FT_BLE library (the record
-- BleApi) with what they call back, the tokens of the BTC series and BTCContextMultiSigExt (the
-- records BtcToken and MultiSigExt), TW::encode64BE, how uchar_vector appends a number, and the
-- allocator behind new (with the law that it gives no null pointer and no block that is in use).
--
-- Not modelled: NFC, bridge and software devices; scanning for Bluetooth devices, and ExtraSetting,
-- which is for iOS; waits that end with neither a notification nor their time; the random key pair
-- of SCP11, which is given; the ciphers of trezor-crypto; the libraries under deps/; the texts
-- (hexadecimal, JSON) that commands return; the commands of the coin tokens but those of a Blade
-- for the BTC series, and the contexts of other coins; and threads: the order of calls and events
-- is given, and a waiter is told or not told.
pub mod Common
pub mod Status
pub mod Fido
pub mod Gpc
pub mod Product
pub mod Manager
pub mod Apdu
pub mod Blade
pub mod Memory
pub mod Pb
pub mod Utility
pub mod Device
pub mod Context
pub mod Bio
