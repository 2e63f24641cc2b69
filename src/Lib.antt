-- ===== src/Lib.antt =====
-- The HAL of the secure element and of the NFC controller: the T=1 protocol stack of the secure
-- element under vnd/opensource/halimpl/tms_extns/7816-3-T1, the channels of the service above it, the
-- message queue, the timers, the transport and the configuration of the NFC HAL, and the scripts
-- that are downloaded to the chip.
--
-- The host sends APDUs to the secure element in blocks of ISO 7816-3 T=1 over an SPI device. The SE
-- API (7816/SEApi.c) counts the users of the device and calls the T=1 layer (7816/T1.c), which cuts
-- a command into I-blocks, sends a block, polls for the answer, checks and decodes it, recovers
-- from errors and goes on until its state is idle. Below it, ph-driver/phDriver.c writes and reads
-- the bytes. All state is global in the source; here it is passed on explicitly.
--
--   Prelude          helpers on lists, bits and Boolean tests, Prelude.{Lists,Bits,Tests}, and how
--                    a run ends: Prelude.Outcome
--   Ese.Types        SEContext, T1Params, AtrInfo, the enumerations, and T1State, which joins them
--                    with the receive list and the buffer gpDataRx
--   Ese.Epilogue     t1CalculateLRC, t1CalculateCRC, t1SetEpilogue, t1ChkEpilogue
--   Ese.Frame        getHeaderLen, setInfoLen, getInfoLen, gAtr, decodeATR
--   Ese.RecvList     t1RecvDataStoreInList, T1RecvDataListDestroy, t1RecvDataGet
--   Ese.Recovery     doT1RecoveryAtUndecode, doT1RecoveryAtDecodeIFrame, ...SFrame and ...RFrame,
--                    ResetForResyncRsp, FreeTxPartMem
--   Ese.Decode       t1DecodeFrame, a function for each kind of block
--   Ese.Phy          what the layer uses of the driver, the heap, the clock and the other thread
--   Ese.Send         t1SendSFrame, t1SendIFrame, t1SendRFrame
--   Ese.Read         t1Read as built with USE_SPI_SPLIT_READ
--   Ese.Transceive   transceiveProcess, responseProcess, t1TransceiveApdu and the four requests
--   Ese.Driver       PhWrite and PhRead over write(2) and read(2), which fill Ese.Phy
--   Ese.Api          seOpen, seClose, seInit, seTransceive, seDeInit, seReset, seGetATR
--   Ese.Tests        concrete runs
--
-- Of the NFC HAL, under vnd/opensource/halimpl/nfc/THN31, the queue between its threads, the timers,
-- the transport and the configuration:
--
--   Tml.MessageQueue the five operations of halimpl/tml/Dal4Nfc_messageQueueLib.cc on an explicit
--                    heap, in which reading an address that is not allocated is a fault
--   Tml.Timer        halimpl/tml/OsalNfc_Timer.cc, and the receipt of a timer's message by the client
--                    thread of halimpl/hal/TmsNciHal.cc
--   Tml.Transport    halimpl/tml/TmlNfc.cc: tmlNfcWrite, tmlNfcRead, their aborts, tmlNfcIoCtl and
--                    tmlNfcConfigNciPktReTx on the context
--   Tml.Transport.Threads  the rounds of the reader and of the writer, the retransmission's timer and
--                    the deferred callbacks; a list of events is an interleaving of them
--   Tml.Transport.Init  tmlNfcInit, tmlNfcShutdown and tmlNfcCleanUp
--   Tml.Tests        concrete runs, Tml.Tests.Timers of the timers and Tml.Tests.Transports
--   Config.Names     characters and names of halimpl/utils/TmsConfig.cc
--   Config.Registers parseRegisterEntries and mergeEntries
--   Config.Store     CNfcParam, merge, and CNfcConfig's add, find, getValue and its two containers
--   Config.Read      the loop of readConfig over the characters of a file, as a state machine
--   Config.Files     readConfigFile, readConfig, getInstance and readOptionalConfig over the files
--   Config.Tests     concrete runs
--
-- Of the secure element service, under vnd/opensource/halimpl/secure_element:
--
--   Hal.SecureElement  the channels of 1.0/SecureElement.cpp: openLogicalChannel, openBasicChannel,
--                    closeChannel, transmit, seHalResetSe and seHalDeInit over the SE API; an
--                    index outside the channel table or a response is a fault
--   Hal.SecureElement.Service  its init, getAtr and serviceDied
--   Hal.Stack        the SE API for it, filled from Ese.Api
--   Hal.Tests        concrete runs
--
-- Of the downloads to the chip, under vnd/opensource/halimpl/tms_extns/tms-cos-dl, the file
-- tms-cos-dl-common/tmsDlCommonUtils.cpp:
--
--   Download.Hex     Cstr2hex and ParseVersion
--   Download.Limit   CheckAndInitVtpDlLmit and IsVtpDownloadExcess
--   Download.Script  DL_CMD_TYPE, parseHeader, InitChipInfoVer, InitChipInfoCmds, GetCosVer and
--                    GetCmdsHead
--   Download.Buffer  the read buffer of a script: an access outside it is a fault
--   Download.Parse   CheckAssertCmd and parseCmd; Download.Parse.Script is ParseBinSC
--   Download.Exec    tryExecCmd, execBinCmds, tryPT2SeBl and vtpBinDownload over a device that is a
--                    parameter
--   Download.Apdu    execApduCmdChkRes
--   Download.Text    IsEndWith, vtpTxtDownload and vtpDownload
--   Download.Nci     of tms-cos-dl-ree/tmsDlNciUtils.cpp, NciReceive, NciCmdProcess,
--                    NciCmdSendAndChkRsp and execNciCmdChkRes; Download.Nci.Chip the versions and the
--                    types of a chip, with isNeedDownload of tmsNfccDl.cpp
--   Download.Tests   concrete runs, Download.Tests.Ncis of the commands to the controller
--
-- The reader of a configuration adds a setting to a sorted list when its value ends; a setting of
-- the same name is replaced, or merged by the registers in it. The list becomes the vector in which
-- clients search. A client's write or read is handed to a thread of the transport, which posts a
-- message with the result to the client's queue.
--
-- A script is read into a buffer, one command for each line; the section for the chip is looked up
-- by the tags of the lines, and its commands are run until one fails.
--
-- A folder named like a module with definitions holds its theorems. Pointers to heap blocks are
-- options, and a buffer is the list of its bytes; integers of 8, 16 and 32 bits are natural
-- numbers with the remainder written out. A write past the end of gpDataRx, or of the frame buffer
-- of S(IFS response), ends a run with `fault`. So does the use of a semaphore or a thread of the
-- transport that was not made. The loops of t1Read and t1RecvDataGet are structural. The loop of
-- transceiveProcess has fuel, and `unfinished` is what it returns when the fuel is used up: a card
-- may keep the loop going for as long as it likes with S(IFS request), so no number of rounds is
-- enough for every card, and the results below say for which card which number is. The loop of
-- PhWrite has one round for each byte and each retry, which is enough. The loops over the message
-- queue have fuel, and one round for each message and one more are enough. ParseBinSC has one
-- round for each byte of the script, which is enough. The loop of NciCmdSendAndChkRsp has fuel,
-- since the device may send other packets for as long as it likes; the other loops of a download
-- are structural, and so is the reader of a configuration. The loop over register entries has one
-- round for each byte, which is enough. An unsigned long has 64 bits, and a shift by as many is a
-- fault.
--
-- Not modelled: the log, hex dumps and stack dumps; the delays of usleep; the device node and its
-- ioctl, which are the parameter Ese.Api.Node; the configuration of the secure element, whose
-- values are the parameter Ese.Api.Config; the files, properties and checksums of the
-- configuration of the NFC HAL, which are parameters, and the stored checksums of isModified and
-- resetModified; the drivers below the transport, whose results are given; the mutex of the SE
-- API, since each call runs under it from its start to its end; the files and the thread of a
-- download, and the sequences that choose scripts for the NFC controller and the secure element;
-- the other HAL services and the rest of the NFC stack. Sparse_crc32.cc is a copy of another
-- project's code.
pub mod Prelude
pub mod Ese
pub mod Tml
pub mod Hal
pub mod Config
pub mod Download
