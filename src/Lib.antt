-- ===== src/Lib.antt =====
-- Verification of EmmaStreamingSolution/src/www/js/lib/simplecrypto.js, the library with which the
-- browser client of this repository encrypts, signs, packs and stores its messages and keys, and of
-- the client's own scripts, which derive a key and a code of the client by CryptoJS.
--
-- The library has three layers. `util` and `pack` are plain functions on bytes. `internal` calls
-- WebCrypto and hands each result to `onSuccess` or `onError`, through `wrap`. `simpleCrypto.sym`
-- composes the calls of `internal.sym`: it makes or imports an AES and an HMAC key, encrypts, signs
-- the ciphertext, and on the way back verifies before it decrypts. `simpleCrypto.asym` encrypts a
-- message with fresh keys of `sym`, encrypts these with RSA, and signs. `simpleCrypto.storage` keeps
-- keys in IndexedDB.
--
-- Base               numbers, integers, bits, Boolean tests and lists
-- Js                 exceptions, ArrayBuffer, Uint8Array and Array; Js/Objects is plain objects
-- Util               `util`; Util/Words and Util/Text are its laws
-- Pack               `simpleCrypto.pack`; Pack/Format describes the format on its own, Pack/Encode
--                    and Pack/Decode relate the code to it
-- Runtime            callbacks, promises and `wrap`; the state of the page
-- Environment        the objects taken from `window`, `oldWebkit` and `oldIE`
-- Config             the browser flags and `config`
-- WebCrypto          the browser's cryptography and JSON, parameters; WebCrypto/Laws is what is
--                    assumed
-- Internal/Sym       `internal.sym`
-- Internal/Pbkdf2    `internal.pbkdf2`; its child Standard is PBKDF2 on its own, Blocks, Output and
--                    Compat relate the loops to it
-- Internal/Asym      `internal.asym`; its child Jwk is the keys, and their form in old browsers
-- Sym                `simpleCrypto.sym`; Sym/Password is its two functions that take a password
-- Pbkdf2             `simpleCrypto.pbkdf2`
-- Asym               `simpleCrypto.asym`; Asym/Keys is the generation and import of keys
-- IndexedDb          IndexedDB, a parameter; IndexedDb/Laws is what is assumed
-- Transport          the messages of Sym and Asym on their way through Pack
-- SimpleCrypto       the factory of the library and its registration with a loader; its children
--                    Internal and Public are the objects that hold the operations
-- Storage            `dbUtil`
-- KeyStorage         `simpleCrypto.storage`; KeyStorage/Map relates it to a map
-- App                app.js, app/clientUnique.js and app/ClientKeyAndAuth.js of
--                    EmmaStreamingSolution/src/www/js; App/KeyPairs is app/clientAssym.js,
--                    App/RsaKeyPair is lib/rsaKeyPair.js, App/Loading is the modules, the
--                    configuration of RequireJS and app.js, and App/Scripts is the other
--                    scripts of the directory
-- Tests              runs of the model in toy browsers
--
-- Functions keep their names in snake case: `pack.decode` is `decode` of Pack, `internal.sym.encrypt`
-- is `encrypt` of Internal/Sym, `simpleCrypto.sym.encrypt` is `encrypt` of Sym. An ArrayBuffer is a
-- list of bytes, a Uint8Array is a view of one; a dictionary is a list of its entries in the order
-- of their enumeration. A keys object has an address, since `importKeys` writes into it. A JSON Web
-- Key is a list of its members.
--
-- Code that throws returns an `Attempt`. Code with callbacks is a `Run`: from one state of the page
-- to the next, with the exception that it throws, if it throws one. The state counts the
-- operations asked of the browser, and each operation of the parameter depends on that number: it
-- may resolve, reject or throw differently each time. The event loop's turns are run in the order
-- in which they are asked for; one run has never two operations open at once.
--
-- The key storage is a `Task`: from one state of the databases to the next. A request changes the
-- database when it is made, and its handlers run after the code that made it. An exception of a
-- handler aborts the transaction, and is reported.
--
-- Three loops are on fuel. A round of `decode` moves the offset by five bytes at least, and the fuel
-- is the number of bytes of the buffer. `derive_loop` has a turn for each byte of the key and one
-- more, and `derive_block_loop` one for each iteration: for a positive number of iterations this is
-- enough. For any other number the code has no end either, which the model shows as `stalled`.
--
-- Where `window` has no WebCrypto interface, each use of it throws: `without_interface` of
-- SimpleCrypto stands for it, as `without_database` does where there is no IndexedDB.
--
-- Not modelled: the bodies of the scripts in EmmaStreamingSolution/src/www/js/app that are not
-- finished, which are empty or never called or do not parse, and messages to the console. Nor are
-- jQuery, RequireJS, CryptoJS and the other libraries that stand beside these files, which are copies
-- of other projects, and the programs in Java and Groovy. The calls of these libraries are
-- parameters: `CryptoJs`, `Fingerprint2`, `RequireJs` and others of App.
pub mod Base
pub mod Js
pub mod Util
pub mod Pack
pub mod Runtime
pub mod Config
pub mod Environment
pub mod IndexedDb
pub mod SimpleCrypto
pub mod Storage
pub mod KeyStorage
pub mod Transport
pub mod WebCrypto
pub mod Internal
pub mod Pbkdf2
pub mod Sym
pub mod Asym
pub mod App
pub mod Tests
