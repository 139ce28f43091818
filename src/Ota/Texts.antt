-- ===== src/Ota/Texts.antt =====
-- The texts of OTAServer and OTAClient: their lengths, and that they are C strings.
use live_streamer.Common.{
  ◌+◌, ◌-◌, ◌≡◌, refl, [], ◌∷◌, ◌++◌, length, take, replicate, arith, ◌∙◌, length-append,
  length-set, length-replicate, ℕ,
}
use live_streamer.Text.{Text, IsCString, IsCString-append, codes}
use live_streamer.Buffer.{Buffer, max_data_size, memset, store, copy_in, snprintf}
use live_streamer.Buffer.Frames.{length-overwrite}
use live_streamer.OtaServer.{updated_text, available_text}
use live_streamer.OtaClient.{request_text}
use live_streamer.OtaClient.Check.{zeros, printed}

pub length-request_text : (id v : Text) → length (request_text id v) ≡ length id + length v + 53
unfolding request_text codes
length-request_text id v = omega (
  arith,
  length-append id (codes "\",\"version\" : \"" ++ (v ++ codes "\",\"action\" : \"update\"}")),
  length-append v (codes "\",\"action\" : \"update\"}"),
)

pub request_text-IsCString :
    (id v : Text) → IsCString id → IsCString v → IsCString (request_text id v)
unfolding request_text codes
request_text-IsCString id v h k = IsCString-append (codes "{ \"streamId\" : \"") _ (omega arith) (
    IsCString-append id _ h (
      IsCString-append (codes "\",\"version\" : \"") _ (omega arith)
        (IsCString-append v _ k (omega arith))))

pub length-available_text : (w : Text) → length (available_text w) ≡ length w + 130
unfolding available_text codes
length-available_text w = omega (arith, length-append w (codes " }\n"))

pub available_text-IsCString : (w : Text) → IsCString w → IsCString (available_text w)
unfolding available_text codes
available_text-IsCString w h =
    let end : Text = w ++ codes " }\n" in
    let rest : Text = codes ",\"package\" : \"UpdatePackage.tar.xz\",\"version\" : " ++ end in
    let end-IsCString : IsCString end = IsCString-append w (codes " }\n") h (omega arith) in
    let rest-IsCString : IsCString rest =
      IsCString-append (codes ",\"package\" : \"UpdatePackage.tar.xz\",\"version\" : ") end
        (omega arith) end-IsCString in
    IsCString-append
      (codes
        "{ \"status\" : \"available\",\"addr\" : \"http://103.226.217.136/UpdatePackage.tar.xz\"")
      rest (omega arith) rest-IsCString

pub length-updated_text : length updated_text ≡ 25
unfolding updated_text codes
length-updated_text = refl

pub updated_text-IsCString : IsCString updated_text
unfolding updated_text codes
updated_text-IsCString = omega arith

length-store : (n c : ℕ) (b : Buffer) → length (store n c b).cells ≡ length b.cells
unfolding store
length-store n c b = ground (arith, length-set b.cells n c)

pub length-asked : (t : Text) → length (memset max_data_size (printed t)).cells ≡ max_data_size
unfolding memset snprintf copy_in
length-asked t =
    length-overwrite (printed t).cells (replicate max_data_size 0)
    ∙ length-store max_data_size 0 (snprintf max_data_size t zeros)
    ∙ length-overwrite (replicate max_data_size 0) (take (max_data_size - 1) t ++ 0 ∷ [])
    ∙ length-replicate max_data_size 0

-- The package that the server names.
abbrev pub package_addr : Text
package_addr = codes "http://103.226.217.136/UpdatePackage.tar.xz"

abbrev pub package_name : Text
package_name = codes "UpdatePackage.tar.xz"
