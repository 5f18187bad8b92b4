-- ===== src/Lib.antt =====
-- A model of libstunxx, a header-centred C++ library for STUN and TURN messages (RFC 8489, RFC 8656):
-- it builds messages in a buffer of the caller and parses them from one.
--
-- The program's parts and the files that model them:
--   Stun      include/stunxx/Stun.hpp. Wire: read_be16, read_be32, write_be16, write_be32,
--             writeHeader. Endian: the three `byteswap`s, for a platform of either byte order, and
--             the bytes that `memcpy` takes from an integer. Types: the enumerations and their
--             numbers. Kinds: is_response, is_request, is_indication, is_known_attr_type,
--             is_comprehension_required. Header: StunHeader and the constants.
--   Crc       include/stunxx/crc32.hpp: the table and the loop of crc32_update, computeFingerprint.
--             Bursts is about errors in a stretch of four bytes.
--   Table     include/stunxx/attributes/AttributeTable.hpp and src/AttributeTable.cpp.
--   Attr      the classes of include/stunxx/attributes: Numeric, Transport and EvenPort
--             (NumericAttrT.hpp and its two specialisations), Marker, Family (AddressFamilyAttrT),
--             Strings, Data, Raw (ReservationAttr, UserHashAttr), Channel (ChannelNumberAttr), Words
--             (FingerprintAttr, IceControlAttr), Integrity (MessageIntegrityAttrT),
--             ErrorCode (ErrorCodeAttr), AddressError (AddressErrorCodeAttr), Messages (the phrases of
--             both and the constructions from a StunErrorCode; Phrase is what their values share),
--             XorAddress (XorAddressAttrT), Unknown (UnknownAttributesAttr), Algorithm
--             (PasswordAlgorithmAttr, with PasswordAlgorithmEntry.hpp as Algorithm/Entry),
--             Algorithms (PasswordAlgorithmsAttr), Keys (computeKey, computeUserHash). Concept is the
--             concept StunAttribute of Encoder.hpp: a record of operations, with the law that the
--             classes' theorems fill and that the encoder's theorems ask for; Catalogue fills it for
--             every class. Setters is about the setters, Life about the states of a message integrity
--             attribute, and Named has the names of the templates' instances. Total is about the
--             decoders on any bytes. Frame and Written hold what the encoders of all attributes share.
--   Decoder   include/stunxx/Decoder.hpp and src/Decoder.cpp: parse, parseHeader, decode and its
--             loop, the accessors, getAttribute, getAttributes. Collect is about getAttributes,
--             ParseHeader about parseHeader. Spelled says what the bytes of a message are, without the
--             functions that read them, and Exact is about parse against that.
--   Encoder   include/stunxx/Encoder.hpp and src/Encoder.cpp: the constructors, addAttribute in its
--             two forms, addFingerprint, finalize. Message says what a message is as bytes, and Holds
--             is the invariant of an encoder that attributes were added to. Calls has the calls of a
--             client and an abstract encoder, which keeps attributes in place of bytes, and Refines
--             relates the two: Run for any calls, Sealed and Protected for complete messages,
--             Received for what their receiver finds. Finds, FindsAll, Required and Named are about
--             what a decoder makes of a message.
--   Builder   include/stunxx/StunMessageBuilder.hpp: add in both forms, addFingerprint, finalize. Calls
--             is about whole chains, ReadsBack about attributes that are built and read back, Protected
--             about a message with both digests.
--   ChannelData  include/stunxx/ChannelData.hpp: the frame of a channel message.
--   Memory    what a span is: a list of bytes, each a number. Common: lists, tests, bits and words.
--   Tests     the theorems at concrete messages.
--
-- How they interact: a builder owns an encoder and stops at the first addition that fails. The
-- encoder gives each attribute the part of the buffer that its length asks for, lets it write its
-- header and value there, and puts the header of the message in front at the end, or before a digest
-- is taken. The decoder reads the header, walks over the attribute headers and records each in a
-- table; getAttribute looks up a type in the table and hands the value's bytes to the class.
--
-- Conventions. A method that changes its object is a function from the old state to the new one. An
-- integer of w bits is a natural number, with its wrap-around written out where the source cuts a
-- value (`u16`, `u32`); a `std::size_t` is not bounded. A read or a write through a span is an
-- `Outcome`: `done`, or `fault` when it leaves the span, where C++ has undefined behaviour. The unit
-- is the span that the code passes on: a write that leaves the part of the buffer that the encoder
-- handed to an attribute is a fault even if the buffer goes on behind it. The byte order of the
-- platform is a parameter; so are the random draws behind a transaction id, as a function of the
-- draw's number, the HMAC of OpenSSL, as a function of the key and the message that may fail, and
-- EVP_Digest, as a function of the bytes and of the output array before. The system's inet_ntop is a
-- function of the family and the 16 bytes of the array; that it reads four of them for AF_INET is a
-- hypothesis where a theorem needs it. A class template over attribute types is one definition with
-- the type's number as a parameter.
--
-- Fuel. Three loops have fuel: that of `decode` has one more than the end of the message and moves
-- the offset by at least four in each round, and those of the unknown attributes and the password
-- algorithms have one more than the bytes they read, of which each round takes two or four. It is
-- never used up, which the theorems on `parse`, on decode_password_algorithms and on the decoders of
-- all other classes include: the outcome is `done` on every input.
--
-- Not modelled: the plain accessors, which are the fields of the records, and the choice of a platform's
-- socket headers. The tests and build files have no model.
pub mod Common
pub mod Memory
pub mod Stun
pub mod Crc
pub mod Table
pub mod Attr
pub mod Decoder
pub mod Encoder
pub mod Builder
pub mod ChannelData
pub mod Tests
